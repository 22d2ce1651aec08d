-- ===== src/Inject/Webhook/Status.antt =====
-- pkg/inject/pkg/kube/inject/pod.go and webhook.go: the status that an injection writes in an annotation,
-- and that the next one reads. encoding/json is a parameter.
pub mod Rounds
use polaris_controller.Common.{
  String, Bool, not, ◌==◌, ◌||◌, if◌then◌else◌, Option, none, some, List, [], ◌∷◌, map,
}
use polaris_controller.Common.Dict.{Dict, lookup, insert}
use polaris_controller.Inject.Objects.{Pod, Container, Volume}
use polaris_controller.Inject.Options.{SidecarInjectionStatus, SidecarInjectionSpec}
use polaris_controller.Inject.Patch.{is_empty, proxy_container_name}

abbrev pub sidecar_status : String
sidecar_status = "sidecar.polarismesh.cn/status"

abbrev pub named_container : String → Container
named_container name = record {
  name = name;
  image = "";
  args = [];
  env = [];
  volume_mounts = [];
  ports = [];
  cpu_limit = 0;
  cpu_request = 0;
}

abbrev pub named_volume : String → Volume
named_volume name = record { name = name; source = "" }

abbrev pub legacy_init_container_names : List Container
legacy_init_container_names = named_container "istio-init" ∷ named_container "enable-core-dump" ∷ []

abbrev pub legacy_container_names : List Container
legacy_container_names = named_container proxy_container_name ∷ []

abbrev pub legacy_volume_names : List Volume
legacy_volume_names = named_volume "polaris-certs" ∷ named_volume "polaris-envoy" ∷ []

abbrev pub legacy_status : SidecarInjectionStatus
legacy_status = record {
  version = "";
  init_containers = legacy_init_container_names;
  containers = legacy_container_names;
  volumes = legacy_volume_names;
  image_pull_secrets = [];
}

-- One of the lists has an item.
abbrev pub is_explicit : SidecarInjectionStatus → Bool
is_explicit s =
    not (is_empty s.init_containers)
    || not (is_empty s.containers)
    || not (is_empty s.volumes)
    || not (is_empty s.image_pull_secrets)

-- The names of what is added.
unfoldable pub status_of : String → SidecarInjectionSpec → SidecarInjectionStatus
status_of version sic = record {
  version = version;
  init_containers = map (λ c. named_container c.name) sic.init_containers;
  containers = map (λ c. named_container c.name) sic.containers;
  volumes = map (λ v. named_volume v.name) sic.volumes;
  image_pull_secrets = map (λ s. record { name = s.name }) sic.image_pull_secrets;
}

module _ (unmarshal : String → Option SidecarInjectionStatus)
    (marshal : SidecarInjectionStatus → String) where
  status_or_legacy : Option SidecarInjectionStatus → SidecarInjectionStatus
  status_or_legacy none = legacy_status
  status_or_legacy (some s) = if is_explicit s then s else legacy_status

  text_of : Option String → String
  text_of none = ""
  text_of (some value) = value

  -- injectionStatus
  unfoldable pub injection_status : Pod → SidecarInjectionStatus
  unfolding status_or_legacy text_of
  injection_status pod =
      status_or_legacy (unmarshal (text_of (lookup sidecar_status pod.annotations)))

  -- addInjectStatusAnnotation, on the annotations to be injected
  unfoldable pub add_inject_status_annotation :
      String → SidecarInjectionSpec → Dict String → Dict String
  add_inject_status_annotation version sic injected =
      let result = marshal (status_of version sic) in
      if result == "" then injected else insert sidecar_status result injected
