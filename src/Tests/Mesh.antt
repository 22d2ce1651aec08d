-- ===== src/Tests/Mesh.antt =====
-- The containers that the mode mesh adds, where the API server cannot be reached.
use polaris_controller.Common.{String, ◌≡◌, ◌≢◌, none, some, List, [], ◌∷◌, arith}
use polaris_controller.Common.Dict.{Dict}
use polaris_controller.Common.Outcome.{Outcome, ok, err, panic, remote, bad_body}
use polaris_controller.Util.Names.{sidecar_for_mesh}
use polaris_controller.Inject.Objects.{Pod, Container}
use polaris_controller.Inject.Options.{PatchOptions, patch_add}
use polaris_controller.Inject.Webhook.{patch_container}
use polaris_controller.Inject.Webhook.Status.{legacy_status}
use polaris_controller.Inject.Mesh.Settings.{SidecarConfig}
use polaris_controller.Inject.Mesh.{
  SecretAnswer, failed, CreateAnswer, create_failed, mesh_patch_container, sidecar_env,
}
use polaris_controller.Inject.Mesh.Answers.{IsLeft, mesh_patch_container-ok}
use polaris_controller.Tests.Agent.{app_pod, agent_spec}

abbrev sidecar_container : Container
sidecar_container = record {
  name = "polaris-sidecar";
  image = "polaris-sidecar:v1";
  args = [];
  env = [];
  volume_mounts = [];
  ports = [];
  cpu_limit = 0;
  cpu_request = 0;
}

abbrev mesh_options : PatchOptions
mesh_options = record {
  sidecar_mode = sidecar_for_mesh;
  pod = record app_pod {
    meta = record app_pod.meta { annotations = ("polarismesh.cn/tls-mode", "strict") ∷ [] };
  };
  prev_status = legacy_status;
  annotations = [];
  sic = agent_spec;
  workload_name = "reviews";
  external_info = [];
}

abbrev unreachable : String → SecretAnswer
unreachable ns = failed (remote 503)

abbrev not_created : String → String → CreateAnswer
not_created ns content = create_failed (remote 503)

abbrev not_json : String → Outcome SidecarConfig
not_json text = err bad_body

abbrev written : Outcome String
written = ok "{}"

json_returns : (text : String) → not_json text ≢ panic
json_returns text = ground arith

written_returns : written ≢ panic
written_returns = ground arith

sidecar_without_server :
    (left : List Container) × (mesh_patch_container "127.0.0.1:8091" unreachable not_created
        (remote 404)
        not_json
        written
        patch_add
        "/spec/containers"
        []
        (sidecar_container ∷ [])
        mesh_options
      ≡ (ok (patch_container patch_add "/spec/containers" [] left, left), mesh_options))
    × IsLeft "127.0.0.1:8091" unreachable not_created
        (remote 404)
        not_json
        written
        json_returns
        written_returns
        patch_add
        (sidecar_container ∷ [])
        left
sidecar_without_server =
    mesh_patch_container-ok "127.0.0.1:8091" unreachable not_created (remote 404) not_json written
      json_returns written_returns patch_add "/spec/containers" [] (sidecar_container ∷ [])
      mesh_options

abbrev sample_config_annotation : SidecarConfig
sample_config_annotation = record {
  recurse = none;
  dns = none;
  location = none;
  log_options = some (record {
    output_level = some "debug";
    rotation_max_size = none;
    rotation_max_age = none;
    rotation_max_backups = none;
  });
}

abbrev debug_config : String → Outcome SidecarConfig
debug_config text = ok sample_config_annotation

abbrev configured_pod : Pod
configured_pod = record app_pod {
  meta = record app_pod.meta {
    annotations =
        ("polarismesh.cn/tls-mode", "strict") ∷ ("polarismesh.cn/sidecarConfig", "{}") ∷ [];
  };
}

abbrev env_of : Pod → Outcome (Dict String)
env_of =
    sidecar_env "127.0.0.1:8091" unreachable not_created (remote 404) debug_config written
      sidecar_for_mesh

abbrev made_env : Pod → Dict String
made_env pod = value_of (env_of pod)
  where
    value_of : Outcome (Dict String) → Dict String
    value_of (ok env) = env
    value_of _ = []
