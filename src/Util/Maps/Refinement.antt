-- ===== src/Util/Maps/Refinement.antt =====
-- What SegmentMap promises (pkg/util/map.go): it behaves as one map.
use mathlib.Core.Path.{subst}
use polaris_controller.Common.{
  ℕ, zero, suc, ◌+◌, ◌%◌, ◌^◌, ◌≡◌, refl, sym, ap, ◌∙◌, Bool, true, false, eqb, if◌then◌else◌,
  Option, none, some, List, [], ◌∷◌, length, All, arith, Bool-cases, inl, inr,
}
use polaris_controller.Common.Int.{pos}
use polaris_controller.Common.Outcome.{Outcome, ok}
use polaris_controller.Util.Maps.{Comparable, GoMap, get, set, remove, is_some, or_zero}
use polaris_controller.Util.Maps.Segments.{
  SegmentMap, empty_solts, new_segment_map, nth, set_nth, remainder, then_, caul_index, put,
  compute_if_absent, put_if_absent, get_value, del, counted, count,
}
use polaris_controller.Util.Maps.Entries.{
  nth_below, nth-set_nth, length-set_nth, length-empty_solts, or_nil, below, get-set, get-remove,
}
use polaris_controller.Util.Maps.Counts.{
  IsUnique, length-set, length-remove, set-IsUnique, remove-IsUnique, nth-IsUnique,
  set_nth-IsUnique, counted-set_nth, counted-empty_solts, empty_solts-IsUnique,
}

-- A call of one of the operations, and what it returns.
pub data Command (K V : Type 0) : Type 0 where
  put_command : K → V → Command K V
  compute_command : K → (K → V) → Command K V
  put_absent_command : K → V → Command K V
  get_command : K → Command K V
  del_command : K → Command K V
  count_command : Command K V

pub data Reply (V : Type 0) : Type 0 where
  done : Reply V
  found : V → Bool → Reply V
  deleted : Bool → Reply V
  total : ℕ → Reply V

module _ {K : Type 0} (keys : Comparable K) (n : ℕ) (hash : K → ℕ) where
  same_index :
      (k j : K) → eqb (hash k % suc n) (hash j % suc n) ≡ true → hash k % suc n ≡ hash j % suc n
  same_index k j h = ground (arith, h)

  other_key : (k j : K) → eqb (hash k % suc n) (hash j % suc n) ≡ false → keys.same k j ≡ false
  other_key k j h = elim (Bool-cases (keys.same k j)) [
    | inl equal ↦
        let at_same : eqb (hash j % suc n) (hash j % suc n) ≡ false =
          subst (λ i. eqb (hash i % suc n) (hash j % suc n) ≡ false) ((keys.same_iff k j).0 equal)
            h in
        absurd (ground (arith, at_same))
    | inr other ↦ other
  ]

module _ {K V : Type 0} (keys : Comparable K) where
  -- An abstract map: one Go map.
  unfoldable pub on_map : V → Command K V → GoMap K V → Reply V × GoMap K V
  on_map zero_value (put_command k v) m = (done, set keys k v m)
  on_map zero_value (compute_command k supplier) m =
      let old = get keys k m in
      if is_some old
      then (found (or_zero zero_value old) false, m)
      else (found (supplier k) true, set keys k (supplier k) m)
  on_map zero_value (put_absent_command k v) m =
      let old = get keys k m in
      if is_some old
      then (found (or_zero zero_value old) false, m)
      else (found zero_value true, set keys k v m)
  on_map zero_value (get_command k) m =
      let old = get keys k m in (found (or_zero zero_value old) (is_some old), m)
  on_map zero_value (del_command k) m = (deleted (is_some (get keys k m)), remove keys k m)
  on_map zero_value count_command m = (total (length m % 2 ^ 64), m)

  replied : Outcome ((V × Bool) × SegmentMap K V) → Outcome (Reply V × SegmentMap K V)
  replied r = then_ r (λ ((v, b), s). ok (found v b, s))

  -- The same call of a SegmentMap.
  unfoldable pub on_segments : V → Command K V → SegmentMap K V → Outcome (Reply V × SegmentMap K V)
  unfolding replied
  on_segments zero_value (put_command k v) s =
      then_ (put keys zero_value k v s) (λ s'. ok (done, s'))
  on_segments zero_value (compute_command k supplier) s =
      replied (compute_if_absent keys zero_value k supplier s)
  on_segments zero_value (put_absent_command k v) s = replied (put_if_absent keys zero_value k v s)
  on_segments zero_value (get_command k) s =
      then_ (get_value keys zero_value k s) (λ (v, b). ok (found v b, s))
  on_segments zero_value (del_command k) s =
      then_ (del keys zero_value k s) (λ (b, s'). ok (deleted b, s'))
  on_segments zero_value count_command s = ok (total (count keys zero_value s), s)

  -- What a sequence of calls returns.
  unfoldable pub replies_of_map : V → List (Command K V) → GoMap K V → List (Reply V)
  replies_of_map zero_value [] m = []
  replies_of_map zero_value (c ∷ commands) m =
      let (reply, m') = on_map zero_value c m in reply ∷ replies_of_map zero_value commands m'

  unfoldable pub replies_of_segments :
      V → List (Command K V) → SegmentMap K V → Outcome (List (Reply V))
  replies_of_segments zero_value [] s = ok []
  replies_of_segments zero_value (c ∷ commands) s =
      then_ (on_segments zero_value c s) (λ (reply, s').
        then_ (replies_of_segments zero_value commands s') (λ replies. ok (reply ∷ replies)))

  nothing_in :
      (n : ℕ) (k : K) (i : ℕ) → get keys k (or_nil (nth i (empty_solts {A = K × V} n))) ≡ none
  unfolding get or_nil nth
  nothing_in zero k i = refl
  nothing_in (suc n) k zero = refl
  nothing_in (suc n) k (suc i) = nothing_in n k i

  module _ (n : ℕ) (hash : K → ℕ) where
    segments : List (GoMap K V) → SegmentMap K V
    segments solts = record { solt_num = suc n; solts = solts; hash_func = λ k. pos (hash k) }

    solt : List (GoMap K V) → K → GoMap K V
    unfolding or_nil
    solt solts k = or_nil (nth (hash k % suc n) solts)

    -- The segments hold what one map holds, and as many entries.
    Implements : List (GoMap K V) → GoMap K V → Type 0
    Implements solts m =
        (length solts ≡ suc n)
        × ((k : K) → get keys k (solt solts k) ≡ get keys k m)
        × (counted solts ≡ length m)
        × IsUnique keys m
        × All (IsUnique keys) solts

    caul_index_lem :
        (zero_value : V) (solts : List (GoMap K V)) (k : K)
        → length solts ≡ suc n
        → caul_index keys zero_value (segments solts) k ≡ ok (hash k % suc n, solt solts k)
    unfolding caul_index remainder segments solt or_nil
    caul_index_lem zero_value solts k h =
        let (x, e) = nth_below (hash k % suc n) solts (omega (arith, h, below (hash k) n)) in
        rw e refl

    changed :
        (solts : List (GoMap K V)) (k j : K) (new : GoMap K V)
        → length solts ≡ suc n
        → solt (set_nth (hash k % suc n) new solts) j
          ≡ (if eqb (hash k % suc n) (hash j % suc n) then new else solt solts j)
    unfolding solt or_nil
    changed solts k j new h =
        rw
          (nth-set_nth (hash k % suc n) (hash j % suc n) new solts
            (omega (arith, h, below (hash k) n)))
          (elim (Bool-cases (eqb (hash k % suc n) (hash j % suc n))) [
            | inl same_solt ↦ rw same_solt refl
            | inr other ↦ rw other refl
          ])

    -- A change of one entry in its segment is that change in the map.
    Implements-changed :
        (solts : List (GoMap K V)) (m new m' : GoMap K V) (k : K) (o : Option V)
        → ((j : K) → get keys j new ≡ (if keys.same k j then o else get keys j (solt solts k)))
        → ((j : K) → get keys j m' ≡ (if keys.same k j then o else get keys j m))
        → length new + length m ≡ length m' + length (solt solts k)
        → IsUnique keys new
        → IsUnique keys m'
        → Implements solts m
        → Implements (set_nth (hash k % suc n) new solts) m'
    unfolding Implements solt
    Implements-changed solts m new m' k o in_solt in_map sizes unique unique'
          (size, holds, counts, _, uniques) =
        (
          length-set_nth (hash k % suc n) new solts ∙ size,
          λ j.
              ap (get keys j) (changed solts k j new size)
              ∙ elim (Bool-cases (eqb (hash k % suc n) (hash j % suc n))) [
                | inl here ↦ rw here (
                    in_solt j
                    ∙ ap (λ d. if keys.same k j then o else d) (in_own j here)
                    ∙ sym (in_map j))
                | inr other ↦ rw other (
                    holds j
                    ∙ ap (λ b. if b then o else get keys j m)
                        (sym (other_key keys n hash k j other))
                    ∙ sym (in_map j))
              ],
          omega (
            arith,
            sizes,
            counts,
            counted-set_nth (hash k % suc n) new solts (omega (arith, size, below (hash k) n)),
          ),
          unique',
          set_nth-IsUnique keys (hash k % suc n) new solts unique uniques,
        )
      where
        in_own :
            (j : K)
            → eqb (hash k % suc n) (hash j % suc n) ≡ true
            → get keys j (solt solts k) ≡ get keys j m
        in_own j here =
            ap (λ i. get keys j (or_nil (nth i solts))) (same_index keys n hash k j here) ∙ holds j

    -- A put of one entry, and the removal of one.
    Implements-set :
        (solts : List (GoMap K V)) (m : GoMap K V) (k : K) (v : V)
        → Implements solts m
        → Implements (set_nth (hash k % suc n) (set keys k v (solt solts k)) solts) (set keys k v m)
    unfolding Implements solt
    Implements-set solts m k v (size, holds, counts, unique, uniques) =
        let own_unique = nth-IsUnique keys (hash k % suc n) solts uniques in
        let same = holds k in
        Implements-changed solts m _ _ k (some v) (λ j. get-set keys k j v (solt solts k))
          (λ j. get-set keys k j v m)
          (ground (arith, length-set keys k v (solt solts k), length-set keys k v m, same))
          (set-IsUnique keys k v (solt solts k) own_unique) (set-IsUnique keys k v m unique)
          (size, holds, counts, unique, uniques)

    Implements-remove :
        (solts : List (GoMap K V)) (m : GoMap K V) (k : K)
        → Implements solts m
        → Implements
            (set_nth (hash k % suc n) (remove keys k (solt solts k)) solts)
            (remove keys k m)
    unfolding Implements solt
    Implements-remove solts m k (size, holds, counts, unique, uniques) =
        let own_unique = nth-IsUnique keys (hash k % suc n) solts uniques in
        let same = holds k in
        Implements-changed solts m _ _ k none (λ j. get-remove keys k j (solt solts k))
          (λ j. get-remove keys k j m)
          (ground (
            arith,
            length-remove keys k (solt solts k) own_unique,
            length-remove keys k m unique,
            same,
          ))
          (remove-IsUnique keys k (solt solts k) own_unique) (remove-IsUnique keys k m unique)
          (size, holds, counts, unique, uniques)

    -- One call.
    on_segments-on_map :
        (zero_value : V) (c : Command K V) (solts : List (GoMap K V)) (m : GoMap K V)
        → Implements solts m
        → (solts' : List (GoMap K V)) × (on_segments zero_value c (segments solts)
            ≡ ok ((on_map zero_value c m).0, segments solts'))
          × Implements solts' (on_map zero_value c m).1
    unfolding on_segments on_map put compute_if_absent put_if_absent get_value del count replied
        segments Implements
    on_segments-on_map zero_value (put_command k v) solts m i = (
      set_nth (hash k % suc n) (set keys k v (solt solts k)) solts,
      rw (caul_index_lem zero_value solts k i.0) refl,
      Implements-set solts m k v i,
    )
    on_segments-on_map zero_value (compute_command k supplier) solts m i =
        elim (Bool-cases (is_some (get keys k m))) [
          | inl present ↦
              rw present (solts, rw (caul_index_lem zero_value solts k i.0, i.1 k, present) refl, i)
          | inr absent ↦ rw absent (
            set_nth (hash k % suc n) (set keys k (supplier k) (solt solts k)) solts,
            rw (caul_index_lem zero_value solts k i.0, i.1 k, absent) refl,
            Implements-set solts m k (supplier k) i,
          )
        ]
    on_segments-on_map zero_value (put_absent_command k v) solts m i =
        elim (Bool-cases (is_some (get keys k m))) [
          | inl present ↦
              rw present (solts, rw (caul_index_lem zero_value solts k i.0, i.1 k, present) refl, i)
          | inr absent ↦ rw absent (
            set_nth (hash k % suc n) (set keys k v (solt solts k)) solts,
            rw (caul_index_lem zero_value solts k i.0, i.1 k, absent) refl,
            Implements-set solts m k v i,
          )
        ]
    on_segments-on_map zero_value (get_command k) solts m i =
        (solts, rw (caul_index_lem zero_value solts k i.0, i.1 k) refl, i)
    on_segments-on_map zero_value (del_command k) solts m i = (
      set_nth (hash k % suc n) (remove keys k (solt solts k)) solts,
      rw (caul_index_lem zero_value solts k i.0, i.1 k) refl,
      Implements-remove solts m k i,
    )
    on_segments-on_map zero_value count_command solts m i =
        (solts, ap (λ c. ok (total (c % 2 ^ 64), segments solts)) i.2, i)

    refines :
        (zero_value : V) (commands : List (Command K V)) (solts : List (GoMap K V)) (m : GoMap K V)
        → Implements solts m
        → replies_of_segments zero_value commands (segments solts)
          ≡ ok (replies_of_map zero_value commands m)
    unfolding replies_of_segments replies_of_map
    refines zero_value [] solts m i = refl
    refines zero_value (c ∷ commands) solts m i =
        let (solts', answered, i') = on_segments-on_map zero_value c solts m i in
        rw (answered, refines zero_value commands solts' (on_map zero_value c m).1 i') refl

    -- Any sequence of calls of Put, ComputeIfAbsent, PutIfAbsent, Get, Del and Count of a new SegmentMap, with
    -- a positive number of segments and a hash that is not negative, returns what it would return on one
    -- empty map, without a panic.
    pub replies_of_segments-new :
        (zero_value : V) (commands : List (Command K V))
        → then_
            (new_segment_map (pos (suc n)) (λ k. pos (hash k)))
            (replies_of_segments zero_value commands)
          ≡ ok (replies_of_map zero_value commands [])
    unfolding new_segment_map segments Implements solt get
    replies_of_segments-new zero_value commands =
        refines zero_value commands (empty_solts (suc n)) [] (
          length-empty_solts (K × V) (suc n),
          λ k. nothing_in (suc n) k (hash k % suc n),
          counted-empty_solts K V (suc n),
          tt,
          empty_solts-IsUnique V keys (suc n),
        )
