-- ===== src/Tests/Agent.antt =====
-- The patch of a pod in the mode java-agent at concrete inputs.
use mathlib.Core.Option
use polaris_controller.Common.{
  String, ◌≡◌, ◌≢◌, ◌↔◌, refl, Bool, true, not, none, some, List, [], ◌∷◌, ◌++◌, map, Pointwise,
  arith,
}
use polaris_controller.Common.Dict.{Dict, lookup, index}
use polaris_controller.Common.Outcome.{Outcome, ok, panic}
use polaris_controller.Util.Split.{split}
use polaris_controller.Util.Names.{sidecar_for_java_agent, parse_sidecar_mode_name}
use polaris_controller.Inject.Objects.{Pod, Container}
use polaris_controller.Inject.Options.{
  SidecarInjectionSpec, PatchOptions, patch_remove, patch_add, patch_update,
}
use polaris_controller.Inject.Patch.{
  Operation, is_named, volume_name, secret_name, with_account_mount, account_mount,
}
use polaris_controller.Inject.Patch.Lists.{run, contents, member, keep}
use polaris_controller.Inject.Webhook.{
  PodPatchBuilder, PatchOperation, create_patch, patch_with, patch_container,
}
use polaris_controller.Inject.Webhook.Picks.{pick, volume_of, secret_of}
use polaris_controller.Inject.Webhook.Members.{run-create_patch}
use polaris_controller.Inject.Webhook.Status.{legacy_status}
use polaris_controller.Inject.JavaAgent.{
  annotation_key_java_agent_version, update_container, choose_version,
}
use polaris_controller.Inject.JavaAgent.Init.{InitState, handle_all_added}
use polaris_controller.Inject.JavaAgent.Init.Parts.{HasParts}
use polaris_controller.Inject.JavaAgent.Init.Image.{handled, handle_java_agent_init-panics_iff}
use polaris_controller.Inject.JavaAgent.Updated.{HasAgent}
use polaris_controller.Inject.JavaAgent.Builder.{
  java_patch_container, java_builder, java_builder-IsBase, run-java_patch_container,
}
use polaris_controller.Tests.Pods.{reviews_pod}

abbrev app_container : Container
app_container = record {
  name = "app";
  image = "reviews:v1";
  args = [];
  env = record { name = "JAVA_TOOL_OPTIONS"; value = "-Xmx1g"; value_from = none } ∷ [];
  volume_mounts = [];
  ports = [];
  cpu_limit = 0;
  cpu_request = 0;
}

abbrev init_container : Container
init_container = record {
  name = "polaris-javaagent-init";
  image = "polaris-javaagent-init";
  args = [];
  env = [];
  volume_mounts = [];
  ports = [];
  cpu_limit = 0;
  cpu_request = 0;
}

abbrev pub app_pod : Pod
app_pod = record reviews_pod {
  containers = app_container ∷ [];
  volumes =
      record { name = "polaris-certs"; source = "s" } ∷ record { name = "data"; source = "d" } ∷ [];
}

abbrev pub agent_spec : SidecarInjectionSpec
agent_spec = record {
  init_containers = [];
  containers = [];
  volumes = record { name = "java-agent-dir"; source = "emptyDir" } ∷ [];
  dns_config = none;
  image_pull_secrets = record { name = "registry" } ∷ [];
}

abbrev agent_options : PatchOptions
agent_options = record {
  sidecar_mode = sidecar_for_java_agent;
  pod = app_pod;
  prev_status = legacy_status;
  annotations = [];
  sic = agent_spec;
  workload_name = "reviews";
  external_info = [];
}

abbrev no_config : Outcome (Dict String)
no_config = ok []

abbrev plain : String → Dict String → Outcome String
plain name param = ok name

abbrev no_settings : String → Dict String × Bool
no_settings text = ([], true)

abbrev pub sample_builder : PodPatchBuilder
sample_builder = java_builder "127.0.0.1:8091" "127.0.0.1:8093" no_config plain no_settings

abbrev pub sample_builders : Dict PodPatchBuilder
sample_builders = ("java-agent", sample_builder) ∷ []

abbrev operations_of : Outcome (List PatchOperation) → List PatchOperation
operations_of (ok ops) = ops
operations_of _ = []

abbrev sample_patch : List PatchOperation
sample_patch = operations_of (create_patch sample_builders agent_options).0

sample_patch_found :
    lookup (parse_sidecar_mode_name agent_options.sidecar_mode) sample_builders
    ≡ some sample_builder
unfolding lookup parse_sidecar_mode_name
sample_patch_found = refl

sample_patch_returns : (create_patch sample_builders agent_options).0 ≡ ok sample_patch
unfolding create_patch lookup parse_sidecar_mode_name patch_with java_builder java_patch_container
    handle_all_added update_container choose_version index
sample_patch_returns = refl

sample_patch_runs :
    (Option.map contents (run (pick volume_of sample_patch) (member app_pod.volumes))
      ≡ some (
          keep (λ v. not (is_named volume_name legacy_status.volumes v)) app_pod.volumes
          ++ agent_spec.volumes))
    × (Option.map contents (run (pick secret_of sample_patch) (member app_pod.image_pull_secrets))
        ≡ some (
            keep
              (λ s. not (is_named secret_name legacy_status.image_pull_secrets s))
              app_pod.image_pull_secrets
            ++ agent_spec.image_pull_secrets))
sample_patch_runs =
    run-create_patch sample_builders sample_builder agent_options sample_patch sample_patch_found
      (java_builder-IsBase "127.0.0.1:8091" "127.0.0.1:8093" no_config plain no_settings)
      sample_patch_returns

abbrev sample_updates : List (Operation Container)
sample_updates =
    operations_in
      (java_patch_container "127.0.0.1:8091" "127.0.0.1:8093" no_config plain no_settings
        patch_update "/spec/containers" (app_container ∷ []) [] agent_options).0
  where
    operations_in :
        Outcome (List (Operation Container) × List Container) → List (Operation Container)
    operations_in (ok r) = r.0
    operations_in _ = []

sample_updates_returned :
    (java_patch_container "127.0.0.1:8091" "127.0.0.1:8093" no_config plain no_settings patch_update
      "/spec/containers"
      (app_container ∷ [])
      []
      agent_options).0
    ≡ ok (sample_updates, [])
unfolding java_patch_container update_container choose_version index lookup
sample_updates_returned = refl

sample_container_gets_agent :
    (injected : List Container) × (Option.map contents (
        run
          (patch_container patch_remove "/spec/containers"
              (app_container ∷ [])
              legacy_status.containers
            ++ (patch_container patch_add "/spec/containers" (app_container ∷ []) []
                ++ sample_updates))
          (member (app_container ∷ [])))
      ≡ some (injected ++ map (with_account_mount (account_mount none (app_container ∷ []))) []))
    × Pointwise (HasAgent no_settings agent_options) (app_container ∷ []) injected
sample_container_gets_agent =
    run-java_patch_container "127.0.0.1:8091" "127.0.0.1:8093" no_config plain no_settings
      agent_options app_container [] [] [] sample_updates refl refl sample_updates_returned

abbrev sample_state : InitState
sample_state = record { add = init_container; external_info = [] }

parts_of_grpc : HasParts "127.0.0.1:8091"
unfolding split
parts_of_grpc = ("127.0.0.1", "8091", [], refl)

parts_of_config_grpc : HasParts "127.0.0.1:8093"
unfolding split
parts_of_config_grpc = ("127.0.0.1", "8093", [], refl)

no_config_returns : no_config ≢ panic
no_config_returns = ground arith

plain_returns : (name : String) (param : Dict String) → plain name param ≢ panic
plain_returns name param = ground arith

untagged_image :
    (handled "127.0.0.1:8091" "127.0.0.1:8093" no_config plain no_settings agent_options
        sample_state
      ≡ panic)
    ↔ ((index annotation_key_java_agent_version app_pod.annotations ≡ "")
        × ((name : String) × (split b':' init_container.image ≡ name ∷ [])))
untagged_image =
    handle_java_agent_init-panics_iff "127.0.0.1:8091" "127.0.0.1:8093" no_config plain no_settings
      parts_of_grpc parts_of_config_grpc no_config_returns plain_returns agent_options sample_state
