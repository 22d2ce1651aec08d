-- ===== src/Inject/Webhook/Picks.antt =====
-- The operations of a patch (webhook.go: createPatch) on one member of the pod.
use mathlib.Core.List.{append-nil}
use polaris_controller.Common.{
  String, ◌≡◌, refl, ap, ◌∙◌, Option, none, some, List, [], ◌∷◌, ◌++◌, map,
}
use polaris_controller.Inject.Objects.{Container, Volume, SecretReference}
use polaris_controller.Inject.Patch.{Operation}
use polaris_controller.Inject.Annotations.{MapOperation}
use polaris_controller.Inject.Webhook.{
  PatchOperation, on_init_containers, on_containers, on_volumes, on_image_pull_secrets,
  add_dns_config, add_security_context, on_annotations, if_some, assemble,
}

-- The operations of a patch on one member, in their order.
abbrev pub pick : {B : Type 0} → (PatchOperation → Option B) → List PatchOperation → List B
pick f [] = []
pick f (o ∷ ops) = elim (f o) [ none ↦ pick f ops | some b ↦ b ∷ pick f ops ]

abbrev pub volume_of : PatchOperation → Option (Operation Volume)
volume_of (on_volumes o) = some o
volume_of _ = none

abbrev pub secret_of : PatchOperation → Option (Operation SecretReference)
secret_of (on_image_pull_secrets o) = some o
secret_of _ = none

pick-all :
    {B : Type 0} (f : PatchOperation → Option B) (g : B → PatchOperation)
    → ((b : B) → f (g b) ≡ some b)
    → (xs : List B) (rest : List PatchOperation) → pick f (map g xs ++ rest) ≡ xs ++ pick f rest
pick-all f g all [] rest = refl
pick-all f g all (x ∷ xs) rest = rw (all x, pick-all f g all xs rest) refl

pick-none :
    {A B : Type 0} (f : PatchOperation → Option B) (g : A → PatchOperation)
    → ((a : A) → f (g a) ≡ none)
    → (xs : List A) (rest : List PatchOperation) → pick f (map g xs ++ rest) ≡ pick f rest
pick-none f g none_ [] rest = refl
pick-none f g none_ (x ∷ xs) rest = rw (none_ x) (pick-none f g none_ xs rest)

-- An `f` that picks none of the operations at the end of a patch.
abbrev IsOfList : {B : Type 0} → (PatchOperation → Option B) → Type 0
IsOfList f =
    ((x : String) → f (add_dns_config x) ≡ none)
    × ((x : String) → f (add_security_context x) ≡ none)
    × ((o : MapOperation) → f (on_annotations o) ≡ none)

pick-nothing :
    {A B : Type 0} (f : PatchOperation → Option B) (g : A → PatchOperation)
    → ((a : A) → f (g a) ≡ none)
    → (xs : List A) → pick f (map g xs) ≡ []
pick-nothing f g h [] = refl
pick-nothing f g h (x ∷ xs) = rw (h x) (pick-nothing f g h xs)

pick-end :
    {B : Type 0} (f : PatchOperation → Option B)
    → IsOfList f
    → (dns context : Option String) (os : List MapOperation)
    → pick f (
        if_some dns add_dns_config
        ++ (if_some context add_security_context ++ map on_annotations os))
      ≡ []
pick-end f (d, c, a) none none os = pick-nothing f on_annotations a os
pick-end f (d, c, a) none (some y) os = rw (c y) (pick-nothing f on_annotations a os)
pick-end f (d, c, a) (some x) none os = rw (d x) (pick-nothing f on_annotations a os)
pick-end f (d, c, a) (some x) (some y) os = rw (d x, c y) (pick-nothing f on_annotations a os)

module _ (c1 c2 c3 c4 c5 : List (Operation Container)) (v1 v2 : List (Operation Volume))
    (p1 p2 : List (Operation SecretReference)) (dns context : Option String)
    (os : List MapOperation) where
  pub pick_volumes : pick volume_of (assemble c1 c2 v1 p1 c3 c4 c5 v2 p2 dns context os) ≡ v1 ++ v2
  unfolding assemble
  pick_volumes =
      pick-none volume_of on_init_containers (λ _. refl) c1 _
      ∙ pick-none volume_of on_containers (λ _. refl) c2 _
      ∙ pick-all volume_of on_volumes (λ _. refl) v1 _
      ∙ ap (λ r. v1 ++ r)
          (pick-none volume_of on_image_pull_secrets (λ _. refl) p1 _
            ∙ pick-none volume_of on_init_containers (λ _. refl) c3 _
            ∙ pick-none volume_of on_containers (λ _. refl) c4 _
            ∙ pick-none volume_of on_containers (λ _. refl) c5 _
            ∙ pick-all volume_of on_volumes (λ _. refl) v2 _
            ∙ ap (λ r. v2 ++ r)
                (pick-none volume_of on_image_pull_secrets (λ _. refl) p2 _
                  ∙ pick-end volume_of (λ _. refl, λ _. refl, λ _. refl) dns context os)
            ∙ append-nil v2)

  pub pick_secrets : pick secret_of (assemble c1 c2 v1 p1 c3 c4 c5 v2 p2 dns context os) ≡ p1 ++ p2
  unfolding assemble
  pick_secrets =
      pick-none secret_of on_init_containers (λ _. refl) c1 _
      ∙ pick-none secret_of on_containers (λ _. refl) c2 _
      ∙ pick-none secret_of on_volumes (λ _. refl) v1 _
      ∙ pick-all secret_of on_image_pull_secrets (λ _. refl) p1 _
      ∙ ap (λ r. p1 ++ r)
          (pick-none secret_of on_init_containers (λ _. refl) c3 _
            ∙ pick-none secret_of on_containers (λ _. refl) c4 _
            ∙ pick-none secret_of on_containers (λ _. refl) c5 _
            ∙ pick-none secret_of on_volumes (λ _. refl) v2 _
            ∙ pick-all secret_of on_image_pull_secrets (λ _. refl) p2 _
            ∙ ap (λ r. p2 ++ r)
                (pick-end secret_of (λ _. refl, λ _. refl, λ _. refl) dns context os)
            ∙ append-nil p2)
