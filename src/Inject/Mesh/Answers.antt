-- ===== src/Inject/Mesh/Answers.antt =====
-- The builder of the modes mesh and dns answers every request (mesh/patch.go).
use mathlib.Core.List.{append-nil, append_assoc}
use polaris_controller.Common.{
  String, ◌≡◌, ◌≢◌, ◌⊎◌, refl, ap, ◌∙◌, Bool, true, false, ◌==◌, ◌||◌, Option, none, some, List, [],
  ◌∷◌, ◌++◌, Pointwise, arith, Bool-cases, inl, inr,
}
use polaris_controller.Common.Dict.{Dict, lookup}
use polaris_controller.Common.Outcome.{
  Error, Outcome, ok, err, panic, Exec, attempt, when, continue, modify, pure, ◌>>◌,
}
use polaris_controller.Util.Names.{SidecarMode}
use polaris_controller.Inject.Objects.{Pod, Container, EnvVar, VolumeMount}
use polaris_controller.Inject.Options.{
  PatchOptions, PatchType, patch_remove, patch_add, patch_update,
}
use polaris_controller.Inject.Patch.{Operation}
use polaris_controller.Inject.Mesh.Settings.{SidecarConfig}
use polaris_controller.Inject.Webhook.{patch_container}
use polaris_controller.Inject.Mesh.Additions.{
  with_more, same-with_more, Appends, two-Appends, attempt_lem,
}
use polaris_controller.Inject.Mesh.{
  SecretAnswer, secret, not_found, failed, CreateAnswer, created, already_exists, conflict,
  create_failed, created_or_there, copy_from, root_cert, ensure_root_cert_exist, sidecar_env,
  with_config, configured, enable_mtls, handle_polaris_sidecar_env_inject,
  add_polaris_config_to_init_container_env, handle_added, added_to, handle_all_added,
  mesh_patch_container, config_mount,
}

-- The containers that get variables.
abbrev pub is_completed : String → Bool
is_completed name =
    (name == "polaris-bootstrap-writer" || name == "polaris-sidecar-init")
    || name == "polaris-sidecar"

created_or_there-returns : (a : CreateAnswer) → created_or_there a ≢ panic
unfolding created_or_there
created_or_there-returns created = ground arith
created_or_there-returns already_exists = ground arith
created_or_there-returns conflict = ground arith
created_or_there-returns (create_failed e) = ground arith

module _ (polaris_address : String) (get_secret : String → SecretAnswer)
    (create_secret : String → String → CreateAnswer) (not_found_error : Error)
    (sidecar_config : String → Outcome SidecarConfig) (init_config : Outcome String)
    (config_returns : (text : String) → sidecar_config text ≢ panic)
    (init_returns : init_config ≢ panic) where
  abbrev inject : PatchOptions → Exec Container (Unit {0})
  inject =
      handle_polaris_sidecar_env_inject polaris_address get_secret create_secret not_found_error
        sidecar_config init_config

  abbrev add_config : Exec Container (Unit {0})
  add_config =
      add_polaris_config_to_init_container_env polaris_address get_secret create_secret
        not_found_error sidecar_config init_config

  abbrev config_mount_of : VolumeMount
  config_mount_of =
      config_mount polaris_address get_secret create_secret not_found_error sidecar_config
        init_config

  abbrev add_mount : Exec Container (Unit {0})
  add_mount =
      modify (λ add. record add { volume_mounts = add.volume_mounts ++ config_mount_of ∷ [] })

  add_config-Appends : Appends add_config
  unfolding add_polaris_config_to_init_container_env
  add_config-Appends =
      two-Appends (ok tt) init_config
        (λ text. record { name = "polaris-client-config"; value = text; value_from = none } ∷ [])
        (ground arith) init_returns

  copy_from-returns :
      (ns : String) (a : SecretAnswer)
      → copy_from polaris_address get_secret create_secret not_found_error sidecar_config
          init_config ns a
        ≢ panic
  unfolding copy_from
  copy_from-returns ns (secret content) = created_or_there-returns (create_secret ns content)
  copy_from-returns ns not_found = ground arith
  copy_from-returns ns (failed e) = ground arith

  root_cert-returns :
      (ns : String) (a : SecretAnswer)
      → root_cert polaris_address get_secret create_secret not_found_error sidecar_config
          init_config ns a
        ≢ panic
  unfolding root_cert
  root_cert-returns ns (secret content) = ground arith
  root_cert-returns ns not_found = copy_from-returns ns (get_secret "polaris-system")
  root_cert-returns ns (failed e) = ground arith

  ensure_root_cert_exist-returns :
      (pod : Pod)
      → ensure_root_cert_exist polaris_address get_secret create_secret not_found_error
          sidecar_config init_config pod
        ≢ panic
  unfolding ensure_root_cert_exist
  ensure_root_cert_exist-returns pod = elim (Bool-cases (enable_mtls pod)) [
    | inl on ↦ rw on (root_cert-returns pod.namespace (get_secret pod.namespace))
    | inr off ↦ rw off (ground arith)
  ]

  configured-returns :
      (mode : SidecarMode) (env_map : Dict String) (r : Outcome SidecarConfig)
      → r ≢ panic
      → configured polaris_address get_secret create_secret not_found_error sidecar_config
          init_config mode env_map r
        ≢ panic
  unfolding configured
  configured-returns mode env_map (ok config) h = ground arith
  configured-returns mode env_map (err e) h = ground arith
  configured-returns mode env_map panic h = absurd (h refl)

  with_config-returns :
      (mode : SidecarMode) (env_map : Dict String) (text : Option String)
      → with_config polaris_address get_secret create_secret not_found_error sidecar_config
          init_config mode env_map text
        ≢ panic
  unfolding with_config configured
  with_config-returns mode env_map none = ground arith
  with_config-returns mode env_map (some text) =
      configured-returns mode env_map (sidecar_config text) (config_returns text)

  inject-Appends : (opt : PatchOptions) → Appends (inject opt)
  unfolding handle_polaris_sidecar_env_inject sidecar_env
  inject-Appends opt = two-Appends _ _ _ (ensure_root_cert_exist-returns opt.pod) (
      with_config-returns opt.sidecar_mode _
        (lookup "polarismesh.cn/sidecarConfig" opt.pod.annotations))

  -- The mounts that a container gets.
  abbrev pub mounts_for : Bool → List VolumeMount
  mounts_for true = config_mount_of ∷ []
  mounts_for false = []

  first_part :
      (b : Bool) (c : Container)
      → (env : List EnvVar) × (when b (attempt add_config >> pure tt) c
          ≡ (ok tt, with_more env [] c))
        × ((b ≡ true) ⊎ (env ≡ []))
  unfolding Appends
  first_part true c =
      let (r, env, h, e) = add_config-Appends c in
      (env, attempt_lem add_config (pure tt) c _ r h e, inl refl)
  first_part false c = ([], ap (λ d. (ok tt, d)) (same-with_more c), inr refl)

  second_part :
      (opt : PatchOptions) (b : Bool) (c : Container)
      → (env : List EnvVar) × (when b (attempt (inject opt) >> add_mount) c
          ≡ (ok tt, with_more env (mounts_for b) c))
        × ((b ≡ true) ⊎ (env ≡ []))
  unfolding Appends
  second_part opt true c =
      let (r, env, h, e) = inject-Appends opt c in
      (
        env,
        attempt_lem (inject opt) add_mount c _ r h e ∙ (λ i. (
          ok tt,
          record c {
            env = c.env ++ env;
            volume_mounts = append-nil c.volume_mounts i ++ config_mount_of ∷ [];
          },
        )),
        inl refl,
      )
  second_part opt false c = ([], ap (λ d. (ok tt, d)) (same-with_more c), inr refl)

  abbrev handle : PatchOptions → Exec Container (Unit {0})
  handle =
      handle_added polaris_address get_secret create_secret not_found_error sidecar_config
        init_config

  -- What is made of a container: the sidecar gets its configuration as a mount after the others, it and
  -- the two init containers may get variables after the others, and the rest is as it was.
  abbrev pub IsCompletion : Container → Container → Type 0
  IsCompletion c c' =
      (env : List EnvVar) × (c' ≡ with_more env (mounts_for (c.name == "polaris-sidecar")) c)
      × ((is_completed c.name ≡ true) ⊎ (env ≡ []))

  either_part :
      (a b : Bool) (xs ys : List EnvVar)
      → (a ≡ true) ⊎ (xs ≡ [])
      → (b ≡ true) ⊎ (ys ≡ [])
      → ((a || b) ≡ true) ⊎ (xs ++ ys ≡ [])
  either_part true b xs ys p q = inl refl
  either_part false true xs ys p q = inl refl
  either_part false false xs ys (inl e) q = absurd (ground arith)
  either_part false false xs ys (inr e) (inl d) = absurd (ground arith)
  either_part false false xs ys (inr e) (inr d) = inr (rw (e, d) refl)

  handle_added-IsCompletion :
      (opt : PatchOptions) (c : Container)
      → (c' : Container) × (handle opt c ≡ (ok tt, c')) × IsCompletion c c'
  unfolding handle_added
  handle_added-IsCompletion opt c =
      let writes = c.name == "polaris-bootstrap-writer" || c.name == "polaris-sidecar-init" in
      let is_sidecar = c.name == "polaris-sidecar" in
      let (env, e, p) = first_part writes c in
      let (env', e', p') = second_part opt is_sidecar (with_more env [] c) in
      (
        with_more env' (mounts_for is_sidecar) (with_more env [] c),
        ap (λ r. continue r.0 (λ _. when is_sidecar (attempt (inject opt) >> add_mount)) r.1) e
            ∙ e',
        (
          env ++ env',
          λ i. record c {
            env = append_assoc c.env env env' i;
            volume_mounts = append-nil c.volume_mounts i ++ mounts_for is_sidecar;
          },
          either_part writes is_sidecar env env' p p',
        ),
      )

  abbrev handle_all : PatchOptions → List Container → Exec PatchOptions (List Container)
  handle_all =
      handle_all_added polaris_address get_secret create_secret not_found_error sidecar_config
        init_config

  handle_all-ok :
      (opt : PatchOptions) (external : List Container)
      → (added : List Container) × (handle_all opt external opt ≡ (ok added, opt))
        × Pointwise IsCompletion external added
  unfolding handle_all_added added_to
  handle_all-ok opt [] = ([], refl, tt)
  handle_all-ok opt (c ∷ external) =
      let (c', e, completion) = handle_added-IsCompletion opt c in
      let (added, d, rest) = handle_all-ok opt external in
      (c' ∷ added, rw (e, d) refl, (completion, rest))

  abbrev patch :
      PatchType
      → String
      → List Container
      → List Container
      → Exec PatchOptions (List (Operation Container) × List Container)
  patch =
      mesh_patch_container polaris_address get_secret create_secret not_found_error sidecar_config
        init_config

  -- The elements of External after a request.
  abbrev pub IsLeft : PatchType → List Container → List Container → Type 0
  IsLeft patch_add external left = Pointwise IsCompletion external left
  IsLeft _ external left = left ≡ external

  -- When encoding/json and the reading of the controller's own configuration do not panic, PatchContainer in the
  -- modes mesh and dns ends with a patch for every pod and template, also when a Secret cannot be read or
  -- written, when an annotation is not JSON, and when the controller's configuration cannot be written out: it
  -- is the base builder's patch of the containers that External then holds. A request to add has put into
  -- each the mount of the configuration, if it is the sidecar, and variables at most, if it is the sidecar
  -- or one of the two init containers, after those that it had; other requests leave External as it was,
  -- and all leave the rest of the options.
  pub mesh_patch_container-ok :
      (t : PatchType) (base_path : String) (source external : List Container) (opt : PatchOptions)
      → (left : List Container) × (patch t base_path source external opt
          ≡ (ok (patch_container t base_path source left, left), opt))
        × IsLeft t external left
  unfolding mesh_patch_container
  mesh_patch_container-ok patch_add base_path source external opt =
      let (added, e, completions) = handle_all-ok opt external in (added, rw e refl, completions)
  mesh_patch_container-ok patch_remove base_path source external opt = (external, refl, refl)
  mesh_patch_container-ok patch_update base_path source external opt = (external, refl, refl)
