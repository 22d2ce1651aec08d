-- ===== src/Inject/Annotations/Merged.antt =====
-- What the operations of updateAnnotation make of the annotations of a pod.
use polaris_controller.Common.{
  String, ◌≡◌, refl, sym, ◌∙◌, Bool, true, false, not, ◌==◌, ◌&&◌, ◌||◌, if◌then◌else◌, Option,
  none, some, Option-cases, List, [], ◌∷◌, any, arith, Bool-cases, inl, inr, eq_iff,
}
use polaris_controller.Common.Dict.{Dict, lookup, insert, index, lookup-insert}
use polaris_controller.Inject.Patch.{add, replace}
use polaris_controller.Inject.Annotations.{
  MapOperation, add_map, set_entry, keys_of, sort_keys, insert_key, annotate_key, annotate_each,
  update_annotation,
}

if_present : Option String → Dict String → Option (Option (Dict String))
if_present none m = none
if_present (some old) m = some (some m)

-- RFC 6902 on a member that holds a map, or is not there; `none` is a patch that is refused.
unfoldable pub perform_map : MapOperation → Option (Dict String) → Option (Option (Dict String))
unfolding if_present
perform_map (add_map key value) d = some (some ((key, value) ∷ []))
perform_map (set_entry add key value) (some m) = some (some (insert key value m))
perform_map (set_entry replace key value) (some m) = if_present (lookup key m) (insert key value m)
perform_map _ _ = none

abbrev after :
    Option (Option (Dict String))
    → (Option (Dict String) → Option (Option (Dict String)))
    → Option (Option (Dict String))
after none k = none
after (some d) k = k d

unfoldable pub run_map : List MapOperation → Option (Dict String) → Option (Option (Dict String))
run_map [] d = some d
run_map (o ∷ ops) d = after (perform_map o d) (run_map ops)

abbrev pub entries : Option (Dict String) → Dict String
entries none = []
entries (some m) = m

any-insert_key :
    (p : String → Bool) (k : String) (keys : List String)
    → any p (insert_key k keys) ≡ (p k || any p keys)
unfolding insert_key
any-insert_key p k [] = refl
any-insert_key p k (j ∷ keys) = let later = any-insert_key p k keys in ground (arith, later)

any-sort_keys : (p : String → Bool) (keys : List String) → any p (sort_keys keys) ≡ any p keys
unfolding sort_keys
any-sort_keys p [] = refl
any-sort_keys p (k ∷ keys) = rw (any-insert_key p k (sort_keys keys), any-sort_keys p keys) refl

-- The value that the annotation gets when the operations for `keys` are performed.
abbrev merged : Dict String → List String → String → Option String → Option String
merged added keys k before =
    if any (λ j. j == k) keys && not (index k added == "") then some (index k added) else before

-- An annotation that the code takes to be there is there.
abbrev Covers : Dict String → Dict String → Type 0
Covers t m = (k : String) → lookup k m ≡ none → index k t == "" ≡ true

Covers-insert : (t m : Dict String) (k v : String) → Covers t m → Covers t (insert k v m)
Covers-insert t m k v h j absent = h j (ground (arith, lookup-insert k j v m, absent))

abbrev Result : (Dict String) → List String → Option (Dict String) → List MapOperation → Type 0
Result added keys d ops =
    (result : Option (Dict String)) × (run_map ops d ≡ some result)
    × ((k : String) → lookup k (entries result) ≡ merged added keys k (lookup k (entries d)))

perform-set :
    (t m : Dict String) (key v : String)
    → Covers t m
    → perform_map (set_entry (if index key t == "" then add else replace) key v) (some m)
      ≡ some (some (insert key v m))
unfolding perform_map
perform-set t m key v h = elim (Option-cases (lookup key m)) [
  | inl absent ↦ rw (h key absent) refl
  | inr (old, e) ↦ elim (Bool-cases (index key t == "")) [
    | inl empty ↦ rw empty refl
    | inr full ↦ rw (full, e) refl
  ]
]

merged-skip :
    (added : Dict String) (key : String) (keys : List String) (k : String) (before : Option String)
    → index key added == "" ≡ true
    → merged added (key ∷ keys) k before ≡ merged added keys k before
merged-skip added key keys k before h = ground (arith, eq_iff key k)

merged-set :
    (added m : Dict String) (key : String) (keys : List String) (k : String)
    → index key added == "" ≡ false
    → merged added keys k (lookup k (insert key (index key added) m))
      ≡ merged added (key ∷ keys) k (lookup k m)
merged-set added m key keys k h =
    ground (arith, eq_iff key k, lookup-insert key k (index key added) m)

annotate_present :
    (t m added : Dict String) (keys : List String)
    → Covers t m
    → Result added keys (some m) (annotate_each (some t) added keys)
unfolding annotate_each annotate_key run_map
annotate_present t m added [] h = (some m, refl, λ k. refl)
annotate_present t m added (key ∷ keys) h = elim (Bool-cases (index key added == "")) [
  | inl empty ↦
      let (result, runs, holds) = annotate_present t m added keys h in
      (result, rw empty runs, λ k. holds k ∙ sym (merged-skip added key keys k (lookup k m) empty))
  | inr full ↦
      let m' = insert key (index key added) m in
      let (result, runs, holds) =
        annotate_present t m' added keys (Covers-insert t m key (index key added) h) in
      (
        result,
        rw (full, perform-set t m key (index key added) h) runs,
        λ k. holds k ∙ merged-set added m key keys k full,
      )
]

Covers-empty : (m : Dict String) → Covers [] m
unfolding index lookup
Covers-empty m k h = refl

merged-first :
    (added : Dict String) (key : String) (keys : List String) (k : String)
    → index key added == "" ≡ false
    → merged added keys k (lookup k ((key, index key added) ∷ []))
      ≡ merged added (key ∷ keys) k (lookup k [])
unfolding lookup
merged-first added key keys k h = ground (arith, eq_iff key k)

annotate_absent :
    (added : Dict String) (keys : List String)
    → Result added keys none (annotate_each none added keys)
unfolding annotate_each annotate_key run_map perform_map
annotate_absent added [] = (none, refl, λ k. refl)
annotate_absent added (key ∷ keys) = elim (Bool-cases (index key added == "")) [
  | inl empty ↦
      let (result, runs, holds) = annotate_absent added keys in
      (result, rw empty runs, λ k. holds k ∙ sym (merged-skip added key keys k (lookup k []) empty))
  | inr full ↦
      let m = (key, index key added) ∷ [] in
      let (result, runs, holds) = annotate_present [] m added keys (Covers-empty m) in
      (result, rw full runs, λ k. holds k ∙ merged-first added key keys k full)
]

missing-index : (t : Dict String) → Covers t t
unfolding index
missing-index t k h = rw h refl

annotated :
    (target : Option (Dict String)) (added : Dict String) (keys : List String)
    → Result added keys target (annotate_each target added keys)
annotated none added keys = annotate_absent added keys
annotated (some t) added keys = annotate_present t t added keys (missing-index t)

merged-keys_of :
    (added : Dict String) (k : String)
    → any (λ j. j == k) (keys_of added) ≡ false
    → index k added == "" ≡ true
unfolding index lookup
merged-keys_of [] k h = refl
merged-keys_of (entry ∷ added) k h = let later = merged-keys_of added k in ground (arith, later, h)

-- The operations on the annotations are never refused. Afterwards each annotation that is added with
-- a text is there with it, and every other annotation is as it was; also when the pod had none, or
-- has the annotation with an empty text.
pub run_map-update_annotation :
    (target : Option (Dict String)) (added : Dict String)
    → (result : Option (Dict String)) × (run_map (update_annotation target added) target
        ≡ some result)
      × ((k : String)
          → lookup k (entries result)
            ≡ (if index k added == "" then lookup k (entries target) else some (index k added)))
unfolding update_annotation
run_map-update_annotation target added =
    let (result, runs, holds) = annotated target added (sort_keys (keys_of added)) in
    (
      result,
      runs,
      λ k.
          let missing = merged-keys_of added k in
          let sorted = any-sort_keys (λ j. j == k) (keys_of added) in
          holds k ∙ ground (arith, missing, sorted),
    )
