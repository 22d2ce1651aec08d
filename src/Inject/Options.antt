-- ===== src/Inject/Options.antt =====
-- pkg/inject/pkg/kube/inject/pod_patch.go, inject.go and pod.go: what a patch is made from.
use polaris_controller.Common.{String, Option, List}
use polaris_controller.Common.Dict.{Dict}
use polaris_controller.Util.Names.{SidecarMode}
use polaris_controller.Inject.Objects.{Pod, Container, Volume, SecretReference}

-- SidecarInjectionStatus, with the items' names and nothing else in them.
pub record SidecarInjectionStatus : Type 0 where
  pub version : String
  pub init_containers : List Container
  pub containers : List Container
  pub volumes : List Volume
  pub image_pull_secrets : List SecretReference

-- SidecarInjectionSpec: what the template gives. `dns_config` is the JSON of it.
pub record SidecarInjectionSpec : Type 0 where
  pub init_containers : List Container
  pub containers : List Container
  pub volumes : List Volume
  pub dns_config : Option String
  pub image_pull_secrets : List SecretReference

-- PatchOptions. Its `KubeClient` is a parameter of the code that calls it.
pub record PatchOptions : Type 0 where
  pub sidecar_mode : SidecarMode
  pub pod : Pod
  pub prev_status : SidecarInjectionStatus
  pub annotations : Dict String
  pub sic : SidecarInjectionSpec
  pub workload_name : String
  pub external_info : Dict String

pub data PatchType : Type 0 where
  patch_remove patch_add patch_update : PatchType
