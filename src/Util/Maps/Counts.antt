-- ===== src/Util/Maps/Counts.antt =====
-- The number of entries of a map and of the segments of pkg/util/map.go.
use mathlib.Core.Path.{subst}
use polaris_controller.Common.{
  ℕ, zero, suc, ◌+◌, ◌<◌, ◌≡◌, refl, sym, ap, ◌∙◌, if◌then◌else◌, none, List, [], ◌∷◌, length, All,
  arith, Bool-cases, inl, inr,
}
use polaris_controller.Util.Maps.{Comparable, GoMap, get, set, remove, is_some}
use polaris_controller.Util.Maps.Segments.{empty_solts, nth, set_nth, counted}
use polaris_controller.Util.Maps.Entries.{or_nil, get-set, get-remove}

module _ {K V : Type 0} (keys : Comparable K) where
  -- No key is there twice.
  abbrev pub IsUnique : GoMap K V → Type 0
  IsUnique [] = Unit
  IsUnique (entry ∷ rest) = (get keys entry.0 rest ≡ none) × IsUnique rest

  pub length-set :
      (k : K) (v : V) (m : GoMap K V)
      → length (set keys k v m) ≡ (if is_some (get keys k m) then length m else suc (length m))
  unfolding get set
  length-set k v [] = refl
  length-set k v (entry ∷ rest) =
      let later = length-set k v rest in
      elim (Bool-cases (keys.same entry.0 k)) [
        | inl here ↦ rw here refl
        | inr other ↦ rw (other, later) (ground arith)
      ]

  length-remove_absent :
      (k : K) (m : GoMap K V) → get keys k m ≡ none → length (remove keys k m) ≡ length m
  unfolding get remove
  length-remove_absent k [] h = refl
  length-remove_absent k (entry ∷ rest) h = elim (Bool-cases (keys.same entry.0 k)) [
    | inl here ↦ absurd (ground (arith, here, h))
    | inr other ↦ rw other (ap suc (length-remove_absent k rest (ground (arith, other, h))))
  ]

  pub length-remove :
      (k : K) (m : GoMap K V)
      → IsUnique m
      → length m ≡ (
          if is_some (get keys k m)
          then suc (length (remove keys k m))
          else length (remove keys k m))
  unfolding get remove
  length-remove k [] u = refl
  length-remove k (entry ∷ rest) (absent, u) = elim (Bool-cases (keys.same entry.0 k)) [
    | inl here ↦
        let gone : get keys k rest ≡ none =
          subst (λ j. get keys j rest ≡ none) ((keys.same_iff entry.0 k).0 here) absent in
        rw here (ap suc (sym (length-remove_absent k rest gone)))
    | inr other ↦ let later = length-remove k rest u in rw other (ground (arith, later))
  ]

  pub set-IsUnique : (k : K) (v : V) (m : GoMap K V) → IsUnique m → IsUnique (set keys k v m)
  unfolding get set
  set-IsUnique k v [] u = (refl, tt)
  set-IsUnique k v (entry ∷ rest) (absent, u) = elim (Bool-cases (keys.same entry.0 k)) [
    | inl here ↦
        rw here (subst (λ j. get keys j rest ≡ none) ((keys.same_iff entry.0 k).0 here) absent, u)
    | inr other ↦ rw other (
      get-set keys k entry.0 v rest
          ∙ ground (arith, other, absent, keys.same_iff k entry.0, keys.same_iff entry.0 k),
      set-IsUnique k v rest u,
    )
  ]

  pub remove-IsUnique : (k : K) (m : GoMap K V) → IsUnique m → IsUnique (remove keys k m)
  unfolding remove
  remove-IsUnique k [] u = tt
  remove-IsUnique k (entry ∷ rest) (absent, u) = elim (Bool-cases (keys.same entry.0 k)) [
    | inl here ↦ rw here (remove-IsUnique k rest u)
    | inr other ↦
        rw other (get-remove keys k entry.0 rest ∙ ground (arith, absent), remove-IsUnique k rest u)
  ]

  pub nth-IsUnique :
      (i : ℕ) (solts : List (GoMap K V)) → All IsUnique solts → IsUnique (or_nil (nth i solts))
  unfolding nth or_nil
  nth-IsUnique zero [] us = tt
  nth-IsUnique (suc i) [] us = tt
  nth-IsUnique zero (solt ∷ solts) (u, us) = u
  nth-IsUnique (suc i) (solt ∷ solts) (u, us) = nth-IsUnique i solts us

  pub set_nth-IsUnique :
      (i : ℕ) (new : GoMap K V) (solts : List (GoMap K V))
      → IsUnique new
      → All IsUnique solts
      → All IsUnique (set_nth i new solts)
  unfolding set_nth
  set_nth-IsUnique zero new [] u us = tt
  set_nth-IsUnique (suc i) new [] u us = tt
  set_nth-IsUnique zero new (solt ∷ solts) u (_, us) = (u, us)
  set_nth-IsUnique (suc i) new (solt ∷ solts) u (u', us) = (u', set_nth-IsUnique i new solts u us)

pub counted-set_nth :
    {K V : Type 0} (i : ℕ) (new : GoMap K V) (solts : List (GoMap K V))
    → i < length solts
    → counted (set_nth i new solts) + length (or_nil (nth i solts)) ≡ counted solts + length new
unfolding counted set_nth nth or_nil
counted-set_nth i new [] h = absurd (omega arith)
counted-set_nth zero new (solt ∷ solts) h = omega arith
counted-set_nth (suc i) new (solt ∷ solts) h =
    let later = counted-set_nth i new solts (omega arith) in omega (arith, later)

pub counted-empty_solts : (K V : Type 0) (n : ℕ) → counted (empty_solts {A = K × V} n) ≡ 0
unfolding counted
counted-empty_solts K V zero = refl
counted-empty_solts K V (suc n) = omega (arith, counted-empty_solts K V n)

pub empty_solts-IsUnique :
    {K : Type 0} (V : Type 0) (keys : Comparable K) (n : ℕ)
    → All (IsUnique {V = V} keys) (empty_solts n)
empty_solts-IsUnique V keys zero = tt
empty_solts-IsUnique V keys (suc n) = (tt, empty_solts-IsUnique V keys n)
