-- ===== src/Inject/Mesh/Protected.antt =====
-- The variables of polaris-sidecar that the annotation sidecarConfig cannot change
-- (mesh/patch.go and sidecar.go).
use polaris_controller.Common.{String, List, [], ◌∷◌}
use polaris_controller.Common.Dict.{Dict, insert}
use polaris_controller.Common.Outcome.{Error, Outcome, ok, err, panic}
use polaris_controller.Util.Names.{SidecarMode}
use polaris_controller.Inject.Objects.{Pod}
use polaris_controller.Inject.Mesh.{SecretAnswer, CreateAnswer, mode_env, base_env, sidecar_env}
use polaris_controller.Inject.Mesh.Settings.{SidecarConfig}

-- The variables that the annotation sidecarConfig may set.
abbrev pub settable : List String
settable =
    "SIDECAR_DNS_SUFFIX" ∷ "SIDECAR_DNS_TTL" ∷ "SIDECAR_RECURSE_ENABLE" ∷ "SIDECAR_RECURSE_TIMEOUT"
    ∷ "SIDECAR_REGION" ∷ "SIDECAR_ZONE" ∷ "SIDECAR_CAMPUS" ∷ "SIDECAR_NEARBY_MATCH_LEVEL"
    ∷ "SIDECAR_LOG_LEVEL" ∷ "SIDECAR_LOG_ROTATION_MAX_SIZE" ∷ "SIDECAR_LOG_ROTATION_MAX_AGE"
    ∷ "SIDECAR_LOG_ROTATION_MAX_BACKUPS" ∷ []

value : {A : Type 0} → A → Outcome A → A
value d (ok a) = a
value d (err e) = d
value d panic = d

abbrev mesh_env : Dict String → Dict String
mesh_env env_map = insert "SIDECAR_METRIC_LISTEN_PORT" "15985" (
    insert "SIDECAR_METRIC_ENABLE" "true" (
      insert "SIDECAR_RLS_ENABLE" "true"
        (insert "SIDECAR_MESH_ENABLE" "true" (insert "SIDECAR_DNS_ENABLE" "false" env_map))))

module _ (polaris_address : String) (get_secret : String → SecretAnswer)
    (create_secret : String → String → CreateAnswer) (not_found_error : Error)
    (sidecar_config : String → Outcome SidecarConfig) (init_config : Outcome String) where
  abbrev env_of : SidecarMode → Pod → Outcome (Dict String)
  env_of =
      sidecar_env polaris_address get_secret create_secret not_found_error sidecar_config
        init_config

  abbrev start_env : SidecarMode → Pod → Dict String
  start_env mode pod = mode_env mode pod (
      base_env polaris_address get_secret create_secret not_found_error sidecar_config init_config
        pod)
