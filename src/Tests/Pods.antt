-- ===== src/Tests/Pods.antt =====
-- Pods and their sidecars at concrete inputs.
use polaris_controller.Common.{◌≡◌, ◌≢◌, ◌↔◌, ◌⊎◌, true, false, ◌&&◌, none, some, [], ◌∷◌, arith}
use polaris_controller.Util.Names.{sidecar_for_mesh, sidecar_for_unknown}
use polaris_controller.Inject.Objects.{Pod}
use polaris_controller.Inject.{
  TemplateConfig, injection_policy_enabled, injection_policy_disabled, is_network_mode,
  is_ignored_namespace, require_inject, get_inject_mode,
}
use polaris_controller.Inject.Requirement.{Asks, require_inject_iff}
use polaris_controller.Inject.Mode.{IsWritten, get_inject_mode-known}
use polaris_controller.Tests.{reviews_meta, reviews_namespace}

abbrev pub reviews_pod : Pod
reviews_pod = record {
  meta = reviews_meta;
  has_annotations = true;
  generate_name = "reviews-";
  owner_references = [];
  host_network = false;
  dns_policy = "ClusterFirst";
  init_containers = [];
  containers = [];
  volumes = [];
  image_pull_secrets = [];
  security_context = none;
}

-- A selector of Kubernetes that every pod matches.
abbrev pub template_config : TemplateConfig
template_config = record {
  policy = "disabled";
  never_inject_selector = none ∷ [];
  always_inject_selector = some (record { empty = false; matches = λ _. true }) ∷ [];
}

reviews_pod_is_injected : (require_inject sidecar_for_mesh template_config reviews_pod ≡ true) ↔ (
    ((reviews_pod.host_network && is_network_mode sidecar_for_mesh) ≡ false)
    × (is_ignored_namespace reviews_pod.namespace ≡ false)
    × ((template_config.policy ≡ injection_policy_enabled)
        ⊎ (template_config.policy ≡ injection_policy_disabled))
    × Asks reviews_pod template_config)
reviews_pod_is_injected = require_inject_iff sidecar_for_mesh template_config reviews_pod

mesh_by_default :
    ((get_inject_mode reviews_meta.annotations (some reviews_namespace) sidecar_for_mesh).0
      ≢ sidecar_for_unknown)
    × IsWritten
        (get_inject_mode reviews_meta.annotations (some reviews_namespace) sidecar_for_mesh).1
mesh_by_default =
    get_inject_mode-known reviews_meta.annotations (some reviews_namespace) sidecar_for_mesh
      (ground arith)
