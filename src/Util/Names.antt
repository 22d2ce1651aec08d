-- ===== src/Util/Names.antt =====
-- pkg/util/types.go: annotation keys and values, change types and sidecar modes.
pub mod Annotation
use polaris_controller.Common.{String, ◌==◌, if◌then◌else◌, List, [], ◌∷◌}

abbrev pub is_enable_sync : String
is_enable_sync = "true"

abbrev pub sync_mode_all : String
sync_mode_all = "all"

abbrev pub sync_mode_demand : String
sync_mode_demand = "demand"

abbrev pub sync_direction_kubernetes_to_polaris : String
sync_direction_kubernetes_to_polaris = "kubernetesToPolaris"

abbrev pub sync_direction_polaris_to_kubernetes : String
sync_direction_polaris_to_kubernetes = "polarisToKubernetes"

abbrev pub sync_direction_both : String
sync_direction_both = "both"

abbrev pub source_from_kubernetes : String
source_from_kubernetes = "kubernetes"

abbrev pub source_from_polaris : String
source_from_polaris = "polaris"

abbrev pub internal_config_file_sync_source_key : String
internal_config_file_sync_source_key = "internal-sync-source"

abbrev pub internal_config_file_sync_source_cluster_key : String
internal_config_file_sync_source_cluster_key = "internal-sync-sourcecluster"

-- Metadata keys of the instances that the controller registers.
abbrev pub polaris_cluster_name : String
polaris_cluster_name = "clusterName"

abbrev pub polaris_source : String
polaris_source = "source"

abbrev pub polaris_old_source : String
polaris_old_source = "platform"

-- PolarisSystemMetaSet
abbrev pub polaris_system_meta_set : List String
polaris_system_meta_set = polaris_cluster_name ∷ polaris_source ∷ []

-- PolarisDefaultMetaSet
abbrev pub polaris_default_meta_set : List String
polaris_default_meta_set = polaris_cluster_name ∷ polaris_source ∷ "version" ∷ "protocol" ∷ []

-- ServiceChangeType, as far as the program returns or tests its values. The constructor
-- `workload_kind` is the annotation name that processUpdateService uses as a change type, and
-- `unchanged` is "".
pub data ServiceChangeType : Type 0 where
  service_polaris_delete instance_ttl_changed instance_weight_changed : ServiceChangeType
  instance_enable_register_changed instance_metadata_changed : ServiceChangeType
  instance_custom_weight_changed workload_kind unchanged : ServiceChangeType

pub data SidecarMode : Type 0 where
  sidecar_for_unknown sidecar_for_mesh sidecar_for_dns sidecar_for_java_agent : SidecarMode

unfoldable pub parse_sidecar_mode : String → SidecarMode
parse_sidecar_mode val =
    if val == "mesh"
    then sidecar_for_mesh
    else if val == "dns"
    then sidecar_for_dns
    else if val == "java-agent"
    then sidecar_for_java_agent
    else sidecar_for_mesh

unfoldable pub parse_sidecar_mode_name : SidecarMode → String
parse_sidecar_mode_name sidecar_for_mesh = "mesh"
parse_sidecar_mode_name sidecar_for_dns = "dns"
parse_sidecar_mode_name sidecar_for_java_agent = "java-agent"
parse_sidecar_mode_name sidecar_for_unknown = "mesh"
