-- ===== src/Inject/Patch/Lists.antt =====
-- What the operations make of the list that they are applied to.
use mathlib.Core.Option
use mathlib.Core.List.{append-nil, append_assoc}
use polaris_controller.Common.{
  ℕ, zero, suc, String, ◌≡◌, refl, ◌∙◌, Bool, false, not, if◌then◌else◌, Option, none, some, List,
  [], ◌∷◌, ◌++◌, length, length-append, arith, Bool-cases, inl, inr,
}
use polaris_controller.Inject.Patch.{
  OperationKind, remove, add, replace, Target, whole, index, end, Value, item, items, Operation,
  is_named, remove_from, remove_items, add_each, add_items,
}

-- RFC 6902 on a member that holds a list, or is not there; `none` is a patch that is refused.
unfoldable pub remove_index : {A : Type 0} → ℕ → List A → Option (List A)
remove_index i [] = none
remove_index zero (x ∷ xs) = some xs
remove_index (suc i) (x ∷ xs) = elim (remove_index i xs) [ none ↦ none | some ys ↦ some (x ∷ ys) ]

unfoldable pub replace_index : {A : Type 0} → ℕ → A → List A → Option (List A)
replace_index i a [] = none
replace_index zero a (x ∷ xs) = some (a ∷ xs)
replace_index (suc i) a (x ∷ xs) = elim (replace_index i a xs) [
  | none ↦ none
  | some ys ↦ some (x ∷ ys)
]

present : {A : Type 0} → Option (List A) → Option (Option (List A))
present none = none
present (some xs) = some (some xs)

unfoldable pub perform :
    {A : Type 0} → OperationKind → Target → Value A → Option (List A) → Option (Option (List A))
unfolding present
perform remove (index i) v (some xs) = present (remove_index i xs)
perform add whole (items ys) d = some (some ys)
perform add end (item y) (some xs) = some (some (xs ++ y ∷ []))
perform replace (index i) (item y) (some xs) = present (replace_index i y xs)
perform _ _ _ _ = none

abbrev pub and_then {ℓ} : {D : Type ℓ} → Option D → (D → Option D) → Option D
and_then none k = none
and_then (some d) k = k d

unfoldable pub run : {A : Type 0} → List (Operation A) → Option (List A) → Option (Option (List A))
run [] d = some d
run (o ∷ ops) d = and_then (perform o.op o.target o.value d) (run ops)

-- What a member holds, if it is there.
abbrev pub contents : {A : Type 0} → Option (List A) → List A
contents none = []
contents (some xs) = xs

-- A pod in JSON leaves an empty list out.
abbrev pub member : {A : Type 0} → List A → Option (List A)
member [] = none
member (x ∷ xs) = some (x ∷ xs)

abbrev pub keep : {A : Type 0} → (A → Bool) → List A → List A
keep p [] = []
keep p (x ∷ xs) = if p x then x ∷ keep p xs else keep p xs

module _ {A : Type 0} where
  and_then_assoc :
      (r : Option (Option (List A))) (os os' : List (Operation A))
      → ((d : Option (List A)) → run (os ++ os') d ≡ and_then (run os d) (run os'))
      → and_then r (run (os ++ os')) ≡ and_then (and_then r (run os)) (run os')
  and_then_assoc none os os' h = refl
  and_then_assoc (some d) os os' h = h d

  pub run-append :
      (os os' : List (Operation A)) (d : Option (List A))
      → run (os ++ os') d ≡ and_then (run os d) (run os')
  unfolding run
  run-append [] os' d = refl
  run-append (o ∷ os) os' d =
      and_then_assoc (perform o.op o.target o.value d) os os' (run-append os os')

  remove_index-append :
      (pre : List A) (x : A) (ys : List A)
      → remove_index (length pre) (pre ++ x ∷ ys) ≡ some (pre ++ ys)
  unfolding remove_index
  remove_index-append [] x ys = refl
  remove_index-append (p ∷ pre) x ys = rw (remove_index-append pre x ys) refl

  pub replace_index-append :
      (pre : List A) (x y : A) (ys : List A)
      → replace_index (length pre) y (pre ++ x ∷ ys) ≡ some (pre ++ y ∷ ys)
  unfolding replace_index
  replace_index-append [] x y ys = refl
  replace_index-append (p ∷ pre) x y ys = rw (replace_index-append pre x y ys) refl

  pub run-add_each :
      (base : String) (xs ys : List A)
      → run (add_each base false ys) (some xs) ≡ some (some (xs ++ ys))
  unfolding run add_each perform
  run-add_each base xs [] = rw (append-nil xs) refl
  run-add_each base xs (y ∷ ys) =
      rw (run-add_each base (xs ++ y ∷ []) ys, append_assoc xs (y ∷ []) ys) refl

  module _ (name : A → String) (removed : List A) (base : String) where
    run-remove_from :
        (xs pre : List A) (i : ℕ)
        → length pre ≡ i
        → run (remove_from name removed base i xs) (some (pre ++ xs))
          ≡ some (some (pre ++ keep (λ x. not (is_named name removed x)) xs))
    unfolding remove_from run perform
    run-remove_from [] pre i e = refl
    run-remove_from (x ∷ xs) pre i e =
        rw
          (
            run-append (remove_from name removed base (suc i) xs) _ (some (pre ++ x ∷ xs)),
            ← append_assoc pre (x ∷ []) xs,
            run-remove_from xs (pre ++ x ∷ []) (suc i)
                (length-append pre (x ∷ []) ∙ omega (arith, e)),
            append_assoc pre (x ∷ []) (keep (λ y. not (is_named name removed y)) xs),
          )
          (elim (Bool-cases (is_named name removed x)) [
            | inl gone ↦ rw (gone, ← e, remove_index-append pre x _) refl
            | inr stays ↦ rw stays refl
          ])

    run-remove_items :
        (xs : List A)
        → run (remove_items name xs removed base) (some xs)
          ≡ some (some (keep (λ x. not (is_named name removed x)) xs))
    unfolding remove_items
    run-remove_items xs = run-remove_from xs [] 0 refl

-- The operations that take the items named in `removed` out of a list of a pod and then add others
-- are never refused, and leave the other items in their order, with the added ones after them.
pub run-remove_items-add_items :
    {A : Type 0} (name : A → String) (source removed added : List A) (base : String)
    → Option.map contents
        (run (remove_items name source removed base ++ add_items source added base) (member source))
      ≡ some (keep (λ x. not (is_named name removed x)) source ++ added)
unfolding add_items add_each remove_items remove_from run perform
run-remove_items-add_items name [] removed [] base = refl
run-remove_items-add_items name [] removed (a ∷ added) base =
    rw (run-add_each base (a ∷ []) added) refl
run-remove_items-add_items name (x ∷ xs) removed added base =
    rw
      (
        run-append (remove_items name (x ∷ xs) removed base) (add_each base false added)
            (some (x ∷ xs)),
        run-remove_items name removed base (x ∷ xs),
        run-add_each base (keep (λ y. not (is_named name removed y)) (x ∷ xs)) added,
      )
      refl
