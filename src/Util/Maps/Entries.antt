-- ===== src/Util/Maps/Entries.antt =====
-- Lemmas on the entries of a map and on the segments of pkg/util/map.go.
use polaris_controller.Common.{
  ℕ, zero, suc, ◌%◌, ◌<◌, ◌≡◌, refl, ap, eqb, if◌then◌else◌, Option, none, some, List, [], ◌∷◌,
  length, arith,
}
use polaris_controller.Util.Maps.{Comparable, GoMap, get, set, remove}
use polaris_controller.Util.Maps.Segments.{empty_solts, nth, set_nth}

pub nth_below : {A : Type 0} (i : ℕ) (xs : List A) → i < length xs → (x : A) × (nth i xs ≡ some x)
unfolding nth
nth_below i [] h = absurd (omega arith)
nth_below zero (x ∷ xs) h = (x, refl)
nth_below (suc i) (x ∷ xs) h = nth_below i xs (omega arith)

pub nth-set_nth :
    {A : Type 0} (i j : ℕ) (a : A) (xs : List A)
    → i < length xs
    → nth j (set_nth i a xs) ≡ (if eqb i j then some a else nth j xs)
unfolding nth set_nth
nth-set_nth i j a [] h = absurd (omega arith)
nth-set_nth zero zero a (x ∷ xs) h = refl
nth-set_nth zero (suc j) a (x ∷ xs) h = ground arith
nth-set_nth (suc i) zero a (x ∷ xs) h = ground arith
nth-set_nth (suc i) (suc j) a (x ∷ xs) h =
    let later = nth-set_nth i j a xs (omega arith) in ground (arith, later)

pub length-set_nth :
    {A : Type 0} (i : ℕ) (a : A) (xs : List A) → length (set_nth i a xs) ≡ length xs
unfolding set_nth
length-set_nth i a [] = refl
length-set_nth zero a (x ∷ xs) = refl
length-set_nth (suc i) a (x ∷ xs) = ap suc (length-set_nth i a xs)

pub length-empty_solts : (A : Type 0) (n : ℕ) → length (empty_solts {A = A} n) ≡ n
length-empty_solts A zero = refl
length-empty_solts A (suc n) = ap suc (length-empty_solts A n)

unfoldable pub or_nil : {A : Type 0} → Option (List A) → List A
or_nil none = []
or_nil (some xs) = xs

pub below : (h n : ℕ) → h % suc n < suc n
below h n = omega arith

module _ {K V : Type 0} (keys : Comparable K) where
  pub get-set :
      (k j : K) (v : V) (m : GoMap K V)
      → get keys j (set keys k v m) ≡ (if keys.same k j then some v else get keys j m)
  unfolding get set
  get-set k j v [] = refl
  get-set k j v (entry ∷ rest) =
      let later = get-set k j v rest in
      ground (arith, later, keys.same_iff entry.0 k, keys.same_iff entry.0 j, keys.same_iff k j)

  pub get-remove :
      (k j : K) (m : GoMap K V)
      → get keys j (remove keys k m) ≡ (if keys.same k j then none else get keys j m)
  unfolding get remove
  get-remove k j [] = ground arith
  get-remove k j (entry ∷ rest) =
      let later = get-remove k j rest in
      ground (arith, later, keys.same_iff entry.0 k, keys.same_iff entry.0 j, keys.same_iff k j)
