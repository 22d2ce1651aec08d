-- ===== src/Util/Maps/Segments.antt =====
-- pkg/util/map.go: SegmentMap, a map in segments with a lock each.
use polaris_controller.Common.{
  ℕ, zero, suc, ◌+◌, ◌%◌, ◌^◌, Bool, true, false, eqb, if◌then◌else◌, Option, none, some, List, [],
  ◌∷◌, ◌++◌, length,
}
use polaris_controller.Common.Int.{ℤ, pos, negsuc}
use polaris_controller.Common.Outcome.{Outcome, ok, err, panic}
use polaris_controller.Util.Maps.{Comparable, GoMap, get, set, remove, is_some, or_zero}

pub record SegmentMap (K V : Type 0) : Type 0 where
  pub solt_num : ℕ
  pub solts : List (GoMap K V)
  pub hash_func : K → ℤ

abbrev pub empty_solts {ℓ} : {A : Type ℓ} → ℕ → List (List A)
empty_solts zero = []
empty_solts (suc n) = [] ∷ empty_solts n

-- NewSegmentMap. A negative capacity panics.
unfoldable pub new_segment_map : {K V : Type 0} → ℤ → (K → ℤ) → Outcome (SegmentMap K V)
new_segment_map (pos n) hash_func =
    ok (record { solt_num = n; solts = empty_solts n; hash_func = hash_func })
new_segment_map (negsuc n) hash_func = panic

-- solts[index], and solts with another map in its place
unfoldable pub nth {ℓ} : {A : Type ℓ} → ℕ → List A → Option A
nth i [] = none
nth zero (x ∷ xs) = some x
nth (suc i) (x ∷ xs) = nth i xs

unfoldable pub set_nth {ℓ} : {A : Type ℓ} → ℕ → A → List A → List A
set_nth i a [] = []
set_nth zero a (x ∷ xs) = a ∷ xs
set_nth (suc i) a (x ∷ xs) = x ∷ set_nth i a xs

-- hash % soltNum of Go, as an index: the remainder of a negative number is negative, unless it is
-- zero. `none` is a panic, by the index or by the division by zero.
unfoldable pub remainder : ℤ → ℕ → Option ℕ
remainder h zero = none
remainder (pos h) (suc n) = some (h % suc n)
remainder (negsuc h) (suc n) = if eqb (suc h % suc n) 0 then some 0 else none

abbrev pub or_panic : {A : Type 0} → Option A → Outcome A
or_panic none = panic
or_panic (some a) = ok a

abbrev pub then_ {ℓ} : {A B : Type ℓ} → Outcome A → (A → Outcome B) → Outcome B
then_ (ok a) k = k a
then_ (err e) k = err e
then_ panic k = panic

unfoldable pub counted : {K V : Type 0} → List (GoMap K V) → ℕ
counted [] = 0
counted (solt ∷ solts) = length solt + counted solts

module _ {K V : Type 0} (keys : Comparable K) (zero_value : V) where
  -- caulIndex, with the index of the segment
  unfoldable pub caul_index : SegmentMap K V → K → Outcome (ℕ × GoMap K V)
  caul_index s k =
      then_ (or_panic (remainder (s.hash_func k) s.solt_num))
        (λ index. then_ (or_panic (nth index s.solts)) (λ solt. ok (index, solt)))

  abbrev pub with_solt : SegmentMap K V → ℕ → GoMap K V → SegmentMap K V
  with_solt s index solt = record s { solts = set_nth index solt s.solts }

  unfoldable pub put : K → V → SegmentMap K V → Outcome (SegmentMap K V)
  put k v s = then_ (caul_index s k) (λ (index, solt). ok (with_solt s index (set keys k v solt)))

  unfoldable pub compute_if_absent :
      K → (K → V) → SegmentMap K V → Outcome ((V × Bool) × SegmentMap K V)
  compute_if_absent k supplier s = then_ (caul_index s k) (λ (index, solt).
      let old = get keys k solt in
      if is_some old
      then ok ((or_zero zero_value old, false), s)
      else ok ((supplier k, true), with_solt s index (set keys k (supplier k) solt)))

  -- The old value, which is the zero value where there was none, and whether the new one was put.
  unfoldable pub put_if_absent : K → V → SegmentMap K V → Outcome ((V × Bool) × SegmentMap K V)
  put_if_absent k v s = then_ (caul_index s k) (λ (index, solt).
      let old = get keys k solt in
      if is_some old
      then ok ((or_zero zero_value old, false), s)
      else ok ((zero_value, true), with_solt s index (set keys k v solt)))

  unfoldable pub get_value : K → SegmentMap K V → Outcome (V × Bool)
  get_value k s =
      then_ (caul_index s k) (λ (index, solt).
        let found = get keys k solt in ok (or_zero zero_value found, is_some found))

  unfoldable pub del : K → SegmentMap K V → Outcome (Bool × SegmentMap K V)
  del k s =
      then_ (caul_index s k)
        (λ (index, solt). ok (is_some (get keys k solt), with_solt s index (remove keys k solt)))

  -- The entries in the order in which Range visits them.
  visited : List (GoMap K V) → GoMap K V
  visited [] = []
  visited (solt ∷ solts) = solt ++ visited solts

  unfoldable pub range : SegmentMap K V → GoMap K V
  unfolding visited
  range s = visited s.solts

  -- Count, a uint64
  unfoldable pub count : SegmentMap K V → ℕ
  unfolding counted
  count s = counted s.solts % 2 ^ 64
