-- ===== src/Inject/Webhook/Members.antt =====
-- What the patch of createPatch makes of the volumes and the pull secrets of a pod (webhook.go).
use mathlib.Core.Option
use mathlib.Core.Path.{subst}
use polaris_controller.Common.{String, ◌≡◌, refl, sym, ap, ◌∙◌, not, some, List, ◌++◌, arith}
use polaris_controller.Common.Dict.{Dict, lookup}
use polaris_controller.Common.Outcome.{Outcome, ok, err, panic, Exec, continue, pure, ◌>>=◌}
use polaris_controller.Util.Names.{parse_sidecar_mode_name}
use polaris_controller.Inject.Objects.{Pod, Volume, SecretReference}
use polaris_controller.Inject.Options.{
  PatchOptions, PatchType, patch_remove, patch_add, patch_update,
}
use polaris_controller.Inject.Patch.{is_named, remove_items, add_items, volume_name, secret_name}
use polaris_controller.Inject.Patch.Lists.{run, contents, member, keep, run-remove_items-add_items}
use polaris_controller.Inject.Webhook.{
  PodPatchBuilder, asked, write_prev_inits, write_prev_containers, write_sic_inits,
  write_sic_containers, patch_volumes, patch_image_pull_secrets, PatchOperation, patch_with,
  with_builder, create_patch,
}
use polaris_controller.Inject.Webhook.Picks.{pick, volume_of, secret_of, pick_volumes, pick_secrets}

-- What holds of the value of a call, if it returns one.
abbrev OnValue : {S A : Type 0} → (A → Type 0) → Outcome A × S → Type 0
OnValue Q (ok a, s) = Q a
OnValue Q (err e, s) = Unit
OnValue Q (panic, s) = Unit

on_value :
    {S A B : Type 0} (Q : B → Type 0) (p : Outcome A × S) (k : A → Exec S B)
    → ((a : A) (t : S) → p ≡ (ok a, t) → OnValue Q (k a t))
    → OnValue Q (continue p.0 k p.1)
on_value Q (ok a, t) k h = h a t refl
on_value Q (err x, t) k h = tt
on_value Q (panic, t) k h = tt

on_step :
    {S A B : Type 0} (Q : B → Type 0) (m : Exec S A) (s : S) (k : A → Exec S B)
    → ((a : A) (t : S) → m s ≡ (ok a, t) → OnValue Q (k a t))
    → OnValue Q ((m >>= k) s)
on_step Q m s k h = on_value Q (m s) k h

value : {A : Type 0} → A → Outcome A → A
value d (ok a) = a
value d (err x) = d
value d panic = d

abbrev fine : {S A : Type 0} → A → S → Outcome A × S
fine a s = (ok a, s)

value_of_ok : {S A : Type 0} (a b : A) (s t : S) → fine a s ≡ fine b t → a ≡ b
unfolding value
value_of_ok a b s t e = ap (λ r. value a r.0) e

-- A builder whose volumes and pull secrets are those of apply/base/patch.go.
abbrev pub IsBase : PodPatchBuilder → Type 0
IsBase builder =
    ((t : PatchType) (base_path : String) (source external : List Volume)
      → builder.patch_volumes t base_path source external
        ≡ pure (patch_volumes t base_path source external))
    × ((t : PatchType) (base_path : String) (source external : List SecretReference)
        → builder.patch_image_pull_secrets t base_path source external
          ≡ pure (patch_image_pull_secrets t base_path source external))

-- A call that is known to return a value has returned it.
known : {S A : Type 0} (m : Exec S A) (a b : A) (s t : S) → m ≡ pure a → m s ≡ (ok b, t) → b ≡ a
known m a b s t e h = sym (value_of_ok a b s t (sym (ap (λ n. n s) e) ∙ h))

both : {A : Type 0} {a b c d : List A} → a ≡ c → b ≡ d → a ++ b ≡ c ++ d
both {a} {b} {c} {d} e f = ap (λ x. x ++ b) e ∙ ap (λ x. c ++ x) f

module _ (builder : PodPatchBuilder) (opt : PatchOptions) (is_base : IsBase builder) where
  abbrev pod : Pod
  pod = opt.pod

  -- The operations that the patch has for the volumes and for the pull secrets.
  abbrev pub MembersAre : List PatchOperation → Type 0
  MembersAre ops =
      (pick volume_of ops
        ≡ remove_items volume_name pod.volumes opt.prev_status.volumes "/spec/volumes"
          ++ add_items pod.volumes opt.sic.volumes "/spec/volumes")
      × (pick secret_of ops
          ≡ remove_items secret_name pod.image_pull_secrets opt.prev_status.image_pull_secrets
              "/spec/imagePullSecrets"
            ++ add_items pod.image_pull_secrets opt.sic.image_pull_secrets "/spec/imagePullSecrets")

  members_are : OnValue MembersAre (patch_with builder opt)
  unfolding patch_with patch_volumes patch_image_pull_secrets
  members_are =
      on_step MembersAre
        (asked write_prev_inits (
          builder.patch_container patch_remove "/spec/initContainers" pod.init_containers
            opt.prev_status.init_containers))
        opt _
        (λ c1 s1 _.
          on_step MembersAre
            (asked write_prev_containers (
              builder.patch_container patch_remove "/spec/containers" pod.containers
                opt.prev_status.containers))
            s1 _
            (λ c2 s2 _.
              on_step MembersAre
                (builder.patch_volumes patch_remove "/spec/volumes" pod.volumes
                  opt.prev_status.volumes)
                s2 _
                (λ v1 s3 e3.
                  on_step MembersAre
                    (builder.patch_image_pull_secrets patch_remove "/spec/imagePullSecrets"
                      pod.image_pull_secrets opt.prev_status.image_pull_secrets)
                    s3 _
                    (λ p1 s4 e4.
                      on_step MembersAre
                        (asked write_sic_inits (
                          builder.patch_container patch_add "/spec/initContainers"
                            pod.init_containers opt.sic.init_containers))
                        s4 _
                        (λ c3 s5 _.
                          on_step MembersAre
                            (asked write_sic_containers (
                              builder.patch_container patch_add "/spec/containers" pod.containers
                                opt.sic.containers))
                            s5 _
                            (λ c4 s6 _.
                              on_step MembersAre
                                ((λ o.
                                  asked write_sic_containers
                                    (builder.patch_container patch_update "/spec/containers"
                                      pod.containers o.sic.containers)
                                    o))
                                s6 _
                                (λ c5 s7 _.
                                  on_step MembersAre
                                    (builder.patch_volumes patch_add "/spec/volumes" pod.volumes
                                      opt.sic.volumes)
                                    s7 _
                                    (λ v2 s8 e8.
                                      on_step MembersAre
                                        (builder.patch_image_pull_secrets patch_add
                                          "/spec/imagePullSecrets" pod.image_pull_secrets
                                          opt.sic.image_pull_secrets)
                                        s8 _
                                        (λ p2 s9 e9. (
                                          pick_volumes c1 c2 c3 c4 c5 v1 v2 p1 p2 opt.sic.dns_config
                                                pod.security_context _
                                              ∙ both
                                                  (known
                                                    (builder.patch_volumes patch_remove
                                                      "/spec/volumes" pod.volumes
                                                      opt.prev_status.volumes)
                                                    _ v1 s2 s3 (is_base.0 _ _ _ _) e3)
                                                  (known
                                                    (builder.patch_volumes patch_add "/spec/volumes"
                                                      pod.volumes opt.sic.volumes)
                                                    _ v2 s7 s8 (is_base.0 _ _ _ _) e8),
                                          pick_secrets c1 c2 c3 c4 c5 v1 v2 p1 p2 opt.sic.dns_config
                                                pod.security_context _
                                              ∙ both
                                                  (known
                                                    (builder.patch_image_pull_secrets patch_remove
                                                      "/spec/imagePullSecrets"
                                                      pod.image_pull_secrets
                                                      opt.prev_status.image_pull_secrets)
                                                    _ p1 s3 s4 (is_base.1 _ _ _ _) e4)
                                                  (known
                                                    (builder.patch_image_pull_secrets patch_add
                                                      "/spec/imagePullSecrets"
                                                      pod.image_pull_secrets
                                                      opt.sic.image_pull_secrets)
                                                    _ p2 s8 s9 (is_base.1 _ _ _ _) e9),
                                        ))))))))))

  on_ok :
      (p : Outcome (List PatchOperation) × PatchOptions) (ops : List PatchOperation)
      → OnValue MembersAre p
      → p.0 ≡ ok ops
      → MembersAre ops
  unfolding value
  on_ok (ok os, s) ops h e = subst MembersAre (ap (value os) e) h
  on_ok (err x, s) ops h e = absurd (ground arith)
  on_ok (panic, s) ops h e = absurd (ground arith)

-- Whatever the other requests do, a patch that createPatch makes with volumes and pull secrets as in
-- apply/base/patch.go is not refused there, and leaves in both lists of the pod the items that no
-- earlier injection named, in their order, with those of the template after them.
pub run-create_patch :
    (builders : Dict PodPatchBuilder) (builder : PodPatchBuilder) (opt : PatchOptions)
    (ops : List PatchOperation)
    → lookup (parse_sidecar_mode_name opt.sidecar_mode) builders ≡ some builder
    → IsBase builder
    → (create_patch builders opt).0 ≡ ok ops
    → (Option.map contents (run (pick volume_of ops) (member opt.pod.volumes))
        ≡ some (
            keep (λ v. not (is_named volume_name opt.prev_status.volumes v)) opt.pod.volumes
            ++ opt.sic.volumes))
      × (Option.map contents (run (pick secret_of ops) (member opt.pod.image_pull_secrets))
          ≡ some (
              keep
                (λ s. not (is_named secret_name opt.prev_status.image_pull_secrets s))
                opt.pod.image_pull_secrets
              ++ opt.sic.image_pull_secrets))
unfolding create_patch with_builder
run-create_patch builders builder opt ops found is_base returns =
    let made : (patch_with builder opt).0 ≡ ok ops =
      sym (ap (λ b. (with_builder b opt).0) found) ∙ returns in
    let (volumes, secrets) =
      on_ok builder opt is_base (patch_with builder opt) ops (members_are builder opt is_base)
        made in
    (
      ap (λ os. Option.map contents (run os (member opt.pod.volumes))) volumes
          ∙ run-remove_items-add_items volume_name opt.pod.volumes opt.prev_status.volumes
              opt.sic.volumes "/spec/volumes",
      ap (λ os. Option.map contents (run os (member opt.pod.image_pull_secrets))) secrets
          ∙ run-remove_items-add_items secret_name opt.pod.image_pull_secrets
              opt.prev_status.image_pull_secrets opt.sic.image_pull_secrets
              "/spec/imagePullSecrets",
    )
