-- ===== src/Inject/Owner.antt =====
-- pkg/inject/pkg/kube/inject/common.go and pod.go: the workload that a pod belongs to, and its name.
pub mod Deployment
use polaris_controller.Common.{
  String, Bool, true, false, not, ◌==◌, ◌&&◌, ◌||◌, if◌then◌else◌, Option, none, some, List, [],
  ◌∷◌,
}
use polaris_controller.Common.Dict.{Dict, index}
use polaris_controller.Util.Text.{◌⋯◌}
use polaris_controller.Inject.Objects.{Pod, OwnerReference}

-- The name in the metadata, with the rest of it as in the pod; and metav1.TypeMeta.
pub record Workload : Type 0 where
  pub name : String
  pub kind : String
  pub api_version : String

-- strings.HasSuffix
unfoldable pub has_suffix : String → String → Bool
has_suffix String.[] suffix = suffix == ""
has_suffix (String.◌∷◌ c s) suffix =
    let later = has_suffix s suffix in if String.◌∷◌ c s == suffix then true else later

-- strings.TrimSuffix: a text without the suffix is walked to its end, and is as it was.
unfoldable pub trim_suffix : String → String → String
trim_suffix String.[] suffix = ""
trim_suffix (String.◌∷◌ c s) suffix =
    let later = trim_suffix s suffix in if String.◌∷◌ c s == suffix then "" else String.◌∷◌ c later

abbrev pub is_controller : OwnerReference → Bool
is_controller ref = is_true ref.controller
  where
    is_true : Option Bool → Bool
    is_true none = false
    is_true (some b) = b

abbrev pub no_reference : OwnerReference
no_reference = record { api_version = ""; kind = ""; name = ""; controller = none }

-- findControllerRef
unfoldable pub find_controller_ref : List OwnerReference → OwnerReference
find_controller_ref [] = no_reference
find_controller_ref (ref ∷ refs) =
    let later = find_controller_ref refs in if is_controller ref then ref else later

abbrev pub pod_template_hash_label : String
pod_template_hash_label = "pod-template-hash"

-- isDeploymentReplicaSet
unfoldable pub is_deployment_replica_set : String → String → Dict String → Bool
is_deployment_replica_set kind name labels =
    let hash = index pod_template_hash_label labels in
    kind == "ReplicaSet" && not (hash == "") && has_suffix name hash

-- getDeploymentName
unfoldable pub get_deployment_name : String → String → String
get_deployment_name replica_set_name pod_template_hash =
    trim_suffix replica_set_name ("-" ⋯ pod_template_hash)

-- getOwnerMetaAndType
unfoldable pub get_owner_meta_and_type : Pod → Workload
get_owner_meta_and_type pod =
    let ref = find_controller_ref pod.owner_references in
    if pod.generate_name == "" || ref.name == ""
    then record { name = pod.name; kind = "Pod"; api_version = "v1" }
    else if is_deployment_replica_set ref.kind ref.name pod.labels
    then record {
      name = get_deployment_name ref.name (index pod_template_hash_label pod.labels);
      kind = "Deployment";
      api_version = ref.api_version;
    }
    else record { name = ref.name; kind = ref.kind; api_version = ref.api_version }

-- assignPodName
unfoldable pub assign_pod_name : Pod → String
assign_pod_name pod =
    if not (pod.name == "")
    then pod.name
    else if not (pod.generate_name == "")
    then pod.generate_name ⋯ "***** (actual name not yet known)"
    else ""
