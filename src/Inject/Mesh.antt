-- ===== src/Inject/Mesh.antt =====
-- pkg/inject/pkg/kube/inject/apply/mesh: sidecar.go, the environment of the container polaris-sidecar, and
-- patch.go, PodPatchBuilder of the modes mesh and dns. The client of Kubernetes and encoding/json are
-- parameters.
pub mod Settings
pub mod Additions
pub mod Protected
pub mod Answers
use polaris_controller.Common.{
  String, Bool, true, false, not, ◌==◌, ◌||◌, if◌then◌else◌, Option, none, some, List, [], ◌∷◌,
  ◌++◌, map,
}
use polaris_controller.Common.Dict.{Dict, lookup, insert}
use polaris_controller.Common.Outcome.{
  Error, Outcome, ok, err, panic, Exec, pure, lift, modify, gets, ◌>>=◌, ◌>>◌, when, attempt,
}
use polaris_controller.Util.Text.{◌⋯◌}
use polaris_controller.Util.Names.{SidecarMode, sidecar_for_dns}
use polaris_controller.Inject.Objects.{Pod, Container, EnvVar, VolumeMount}
use polaris_controller.Inject.Options.{PatchOptions, PatchType, patch_add}
use polaris_controller.Inject.Patch.{Operation}
use polaris_controller.Inject.Webhook.{
  PodPatchBuilder, patch_container, patch_volumes, patch_image_pull_secrets,
}
use polaris_controller.Inject.Mesh.Settings.{SidecarConfig, fill_env}

-- buildLabelsStr
unfoldable pub build_labels_str : Dict String → String
build_labels_str [] = ""
build_labels_str (kv ∷ []) = kv.0 ⋯ ":" ⋯ kv.1
build_labels_str (kv ∷ kw ∷ labels) = kv.0 ⋯ ":" ⋯ kv.1 ⋯ "," ⋯ build_labels_str (kw ∷ labels)

not_none : Option String → Bool
not_none none = false
not_none (some value) = not (value == "none")

-- EnableMtls
unfoldable pub enable_mtls : Pod → Bool
unfolding not_none
enable_mtls pod = not_none (lookup "polarismesh.cn/tls-mode" pod.annotations)

-- The variables that the mode decides.
unfoldable pub mode_env : SidecarMode → Pod → Dict String → Dict String
mode_env sidecar_for_dns pod env_map =
    insert "SIDECAR_DNS_ROUTE_LABELS" (build_labels_str pod.labels)
      (insert "SIDECAR_MESH_ENABLE" "false" (insert "SIDECAR_DNS_ENABLE" "true" env_map))
mode_env _ pod env_map =
    let mesh = insert "SIDECAR_METRIC_LISTEN_PORT" "15985" (
      insert "SIDECAR_METRIC_ENABLE" "true" (
        insert "SIDECAR_RLS_ENABLE" "true"
          (insert "SIDECAR_MESH_ENABLE" "true" (insert "SIDECAR_DNS_ENABLE" "false" env_map)))) in
    if enable_mtls pod then insert "SIDECAR_MTLS_ENABLE" "true" mesh else mesh

-- What a secret's lookup gives: the secret's data, that there is none, or another error.
pub data SecretAnswer : Type 0 where
  secret : String → SecretAnswer
  not_found : SecretAnswer
  failed : Error → SecretAnswer

pub data CreateAnswer : Type 0 where
  created already_exists conflict : CreateAnswer
  create_failed : Error → CreateAnswer

created_or_there : CreateAnswer → Outcome (Unit {0})
created_or_there (create_failed e) = err e
created_or_there _ = ok tt

module _ (polaris_address : String) (get_secret : String → SecretAnswer)
    (create_secret : String → String → CreateAnswer) (not_found_error : Error)
    (sidecar_config : String → Outcome SidecarConfig) (init_config : Outcome String) where
  copy_from : String → SecretAnswer → Outcome (Unit {0})
  copy_from ns (secret content) = created_or_there (create_secret ns content)
  copy_from ns not_found = err not_found_error
  copy_from ns (failed e) = err e

  root_cert : String → SecretAnswer → Outcome (Unit {0})
  root_cert ns (secret content) = ok tt
  root_cert ns not_found = copy_from ns (get_secret "polaris-system")
  root_cert ns (failed e) = err e

  -- ensureRootCertExist
  unfoldable pub ensure_root_cert_exist : Pod → Outcome (Unit {0})
  unfolding copy_from root_cert created_or_there
  ensure_root_cert_exist pod =
      if enable_mtls pod then root_cert pod.namespace (get_secret pod.namespace) else ok tt

  base_env : Pod → Dict String
  base_env pod = insert "SIDECAR_LOG_LEVEL" "info" (
      insert "SIDECAR_RECURSE_ENABLE" "true" (
        insert "SIDECAR_PORT" "15053"
          (insert "POLARIS_ADDRESS" polaris_address (insert "SIDECAR_NAMESPACE" pod.namespace []))))

  configured : SidecarMode → Dict String → Outcome SidecarConfig → Outcome (Dict String)
  configured mode env_map (ok config) = ok (fill_env env_map config mode)
  configured mode env_map (err e) = err e
  configured mode env_map panic = panic

  with_config : SidecarMode → Dict String → Option String → Outcome (Dict String)
  unfolding configured
  with_config mode env_map none = ok env_map
  with_config mode env_map (some text) = configured mode env_map (sidecar_config text)

  -- envMap of handlePolarisSidecarEnvInject
  unfoldable pub sidecar_env : SidecarMode → Pod → Outcome (Dict String)
  unfolding base_env with_config
  sidecar_env mode pod =
      with_config mode (mode_env mode pod (base_env pod))
        (lookup "polarismesh.cn/sidecarConfig" pod.annotations)

  abbrev pub env_vars : Dict String → List EnvVar
  env_vars = map (λ kv. record { name = kv.0; value = kv.1; value_from = none })

  -- handlePolarisSidecarEnvInject: an error leaves the container as it was.
  unfoldable pub handle_polaris_sidecar_env_inject : PatchOptions → Exec Container (Unit {0})
  handle_polaris_sidecar_env_inject opt =
      lift (ensure_root_cert_exist opt.pod)
      >> lift (sidecar_env opt.sidecar_mode opt.pod)
      >>= λ env_map. modify (λ add. record add { env = add.env ++ env_vars env_map })

  -- addPolarisConfigToInitContainerEnv, with the text of the configuration as the template gives it
  unfoldable pub add_polaris_config_to_init_container_env : Exec Container (Unit {0})
  add_polaris_config_to_init_container_env = lift init_config >>= λ text. modify (λ add.
      record add {
        env =
            add.env
            ++ record { name = "polaris-client-config"; value = text; value_from = none } ∷ [];
      })

  abbrev pub config_mount : VolumeMount
  config_mount = record {
    name = "polaris-client-config";
    mount_path = "/data/polaris.yaml";
    sub_path = "polaris.yaml";
  }

  -- One added container. The errors are logged only.
  unfoldable pub handle_added : PatchOptions → Exec Container (Unit {0})
  handle_added opt = gets (λ add. add.name) >>= λ name.
      when (name == "polaris-bootstrap-writer" || name == "polaris-sidecar-init")
        (attempt add_polaris_config_to_init_container_env >> pure tt)
      >> when (name == "polaris-sidecar") (
          attempt (handle_polaris_sidecar_env_inject opt)
          >> modify (λ add. record add { volume_mounts = add.volume_mounts ++ config_mount ∷ [] }))

  added_to : Container → Outcome (Unit {0}) × Container → Outcome Container
  added_to c (ok _, add) = ok add
  added_to c (err e, add) = err e
  added_to c (panic, add) = panic

  -- The loop over the added containers.
  unfoldable pub handle_all_added :
      PatchOptions → List Container → Exec PatchOptions (List Container)
  unfolding added_to
  handle_all_added opt [] = pure []
  handle_all_added opt (c ∷ added) = lift (added_to c (handle_added opt c)) >>= λ c'.
      handle_all_added opt added >>= λ added'. pure (c' ∷ added')

  -- PatchContainer; each element of External is replaced by the container that is made of it.
  unfoldable pub mesh_patch_container :
      PatchType
      → String
      → List Container
      → List Container
      → Exec PatchOptions (List (Operation Container) × List Container)
  mesh_patch_container patch_add base_path source external = λ opt.
      (handle_all_added opt external >>= λ added.
      pure (patch_container patch_add base_path source added, added))
        opt
  mesh_patch_container t base_path source external =
      pure (patch_container t base_path source external, external)

  unfoldable pub mesh_builder : PodPatchBuilder
  mesh_builder = record {
    patch_container = mesh_patch_container;
    patch_volumes = λ t base_path source external. pure (patch_volumes t base_path source external);
    patch_image_pull_secrets =
        λ t base_path source external. pure (patch_image_pull_secrets t base_path source external);
  }
