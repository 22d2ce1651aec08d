-- ===== src/Inject/Objects.antt =====
-- The parts of a pod of k8s.io/api/core/v1 that pkg/inject reads or writes. A quantity of CPU is its
-- number of thousandths.
use polaris_controller.Common.{ℕ, String, Bool, Option, List}
use polaris_controller.Kube.{ObjectMeta}

-- `value_from` stands for a source of the value other than the text itself.
pub record EnvVar : Type 0 where
  pub name : String
  pub value : String
  pub value_from : Option String

pub record VolumeMount : Type 0 where
  pub name : String
  pub mount_path : String
  pub sub_path : String

pub record ContainerPort : Type 0 where
  pub container_port : ℕ
  pub protocol : String

pub record Container : Type 0 where
  pub name : String
  pub image : String
  pub args : List String
  pub env : List EnvVar
  pub volume_mounts : List VolumeMount
  pub ports : List ContainerPort
  pub cpu_limit : ℕ
  pub cpu_request : ℕ

-- A volume with its source, as text.
pub record Volume : Type 0 where
  pub name : String
  pub source : String

-- v1.LocalObjectReference
pub record SecretReference : Type 0 where
  pub name : String

-- metav1.OwnerReference
pub record OwnerReference : Type 0 where
  pub api_version : String
  pub kind : String
  pub name : String
  pub controller : Option Bool

-- v1.Pod. The annotations and labels of `meta` are what reading the maps gives; `has_annotations`
-- says whether the map of annotations is there at all.
pub record Pod : Type 0 where
  pub meta : ObjectMeta
  pub open meta use *
  pub has_annotations : Bool
  pub generate_name : String
  pub owner_references : List OwnerReference
  pub host_network : Bool
  pub dns_policy : String
  pub init_containers : List Container
  pub containers : List Container
  pub volumes : List Volume
  pub image_pull_secrets : List SecretReference
  pub security_context : Option String
