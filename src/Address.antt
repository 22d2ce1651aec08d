-- ===== src/Address.antt =====
-- pkg/util/address/address.go: the addresses of a service, from its endpoints and from Polaris.
pub mod Keyed
pub mod Panics
use polaris_controller.Common.{
  ℕ, String, Bool, true, false, ◌&&◌, ◌||◌, ◌==◌, if◌then◌else◌, Option, none, some, List, [], ◌∷◌,
}
use polaris_controller.Common.Dict.{Dict, lookup, insert, index, merge}
use polaris_controller.Common.Int.{ℤ, pos, int_leb}
use polaris_controller.Kube.{
  Service, TargetRef, EndpointAddress, EndpointPort, EndpointSubset, Endpoints,
}
use polaris_controller.Util.Names.{polaris_cluster_name, polaris_source, polaris_old_source}
use polaris_controller.Util.Names.Annotation
use polaris_controller.Util.Filter.{get_weight_from_service}
use polaris_controller.Util.Text.{◌⋯◌, itoa, atoi, last_part}
use polaris_controller.Api.Types.{source}

-- model.Instance of polaris-go, an interface: the values of its methods.
pub record SdkInstance : Type 0 where
  pub host : String
  pub port : ℕ
  pub weight : ℤ
  pub protocol : String
  pub healthy : Bool
  pub isolated : Bool
  pub enable_health_check : Bool
  pub metadata : Option (Dict String)

pub record Address : Type 0 where
  pub ip : String
  pub port : ℕ
  pub pod_name : String
  pub ordinal : String
  pub weight : ℤ
  pub healthy : Bool
  pub isolate : Bool
  pub metadata : Dict String
  pub protocol : String
  pub version : String
  pub polaris_instance : Option SdkInstance

abbrev pub InstanceSet : Type 0
InstanceSet = Dict Address

-- The labels of a pod by namespace and name, `none` where the lister returns an error.
abbrev pub PodLister : Type 0
PodLister = String → String → Option (Dict String)

-- fmt.Sprintf("%s-%d", …)
unfoldable pub address_key : String → ℕ → String
address_key ip port = ip ⋯ "-" ⋯ itoa port

-- The weight that a user set for an ordinal and a port, within the test of the source.
unfoldable pub choose_weight : ℤ → Option ℤ → ℤ
choose_weight default none = default
choose_weight default (some w) = if int_leb (pos 0) w || int_leb w (pos 100) then w else default

with_pod : Address → Option (Dict String) → Address
with_pod address none = address
with_pod address (some labels) = record address {
  metadata = labels;
  version = index "version" labels;
}

module _ (pod_lister : PodLister) (default_weight : ℤ) (index_port_map : Dict ℤ) where
  -- The loop over the ports of a subset.
  build_ports : String → TargetRef → String → Bool → List EndpointPort → InstanceSet → InstanceSet
  unfolding with_pod
  build_ports ip target ordinal isolate [] set = set
  build_ports ip target ordinal isolate (port ∷ ports) set =
      let address : Address = record {
        ip = ip;
        port = port.port;
        pod_name = target.name;
        ordinal = ordinal;
        weight =
            choose_weight default_weight (lookup (address_key ordinal port.port) index_port_map);
        healthy = true;
        isolate = isolate;
        metadata = [];
        protocol = port.name ⋯ "/" ⋯ port.protocol;
        version = "";
        polaris_instance = none;
      } in
      build_ports ip target ordinal isolate ports (
        insert (address_key ip port.port)
          (with_pod address (pod_lister target.namespace target.name)) set)

  -- `none` is the panic on an address without a TargetRef, which the lister's call dereferences.
  build_for : EndpointAddress → EndpointSubset → Bool → Bool → Option TargetRef → Option InstanceSet
  unfolding build_ports
  build_for endpoint subset has_index isolate none = none
  build_for endpoint subset has_index isolate (some target) = some (
      build_ports endpoint.ip target (if has_index then last_part target.name else "") isolate
        subset.ports [])

  unfoldable pub build_addresses :
      EndpointAddress → EndpointSubset → Bool → Bool → Option InstanceSet
  unfolding build_for
  build_addresses endpoint subset has_index isolate =
      build_for endpoint subset has_index isolate endpoint.target_ref

  add_set : InstanceSet → Option InstanceSet → Option InstanceSet
  add_set set none = none
  add_set set (some addresses) = some (merge set addresses)

  -- One of the two loops over the addresses of a subset.
  unfoldable pub add_addresses :
      EndpointSubset → Bool → Bool → List EndpointAddress → Option InstanceSet → Option InstanceSet
  unfolding add_set
  add_addresses subset has_index isolate ads none = none
  add_addresses subset has_index isolate [] (some set) = some set
  add_addresses subset has_index isolate (a ∷ ads) (some set) =
      add_addresses subset has_index isolate ads
        (add_set set (build_addresses a subset has_index isolate))

  unfoldable pub add_subsets : Bool → List EndpointSubset → Option InstanceSet → Option InstanceSet
  add_subsets has_index [] set = set
  add_subsets has_index (subset ∷ subsets) set = add_subsets has_index subsets (
      add_addresses subset has_index true subset.not_ready_addresses
        (add_addresses subset has_index false subset.addresses set))

abbrev pub is_stateful : String → Bool
is_stateful kind =
    kind == "statefulset"
    || kind == "statefulsetplus"
    || kind == "StatefulSetPlus"
    || kind == "StatefulSet"

unfoldable pub get_address_map_from_endpoints :
    Service → Endpoints → PodLister → Dict ℤ → Option InstanceSet
get_address_map_from_endpoints service endpoint pod_lister index_port_map =
    add_subsets pod_lister (get_weight_from_service atoi service) index_port_map
      (is_stateful (index Annotation.workload_kind service.annotations)) endpoint.subsets (some [])

-- GetMetadata()[k]: reading a nil map gives "".
unfoldable pub meta_of : SdkInstance → String → String
meta_of instance k = elim instance.metadata [ none ↦ "" | some m ↦ index k m ]

-- The test of GetAddressMapFromPolarisInstance and of isSyncInstance: this cluster, and registered
-- by the controller under its new or its old name.
unfoldable pub is_sync_instance : String → SdkInstance → Bool
unfolding meta_of
is_sync_instance cluster ins =
    (meta_of ins polaris_cluster_name == cluster && meta_of ins polaris_source == source)
    || (meta_of ins polaris_cluster_name == cluster && meta_of ins polaris_old_source == source)

abbrev pub of_instance : SdkInstance → Address
of_instance instance = record {
  ip = instance.host;
  port = instance.port;
  pod_name = "";
  ordinal = "";
  weight = instance.weight;
  healthy = instance.healthy;
  isolate = instance.isolated;
  metadata = [];
  protocol = instance.protocol;
  version = "";
  polaris_instance = some instance;
}

add_instances_of : String → List SdkInstance → InstanceSet → InstanceSet
add_instances_of cluster [] set = set
add_instances_of cluster (instance ∷ rest) set = add_instances_of cluster rest (
    if is_sync_instance cluster instance
    then insert (address_key instance.host instance.port) (of_instance instance) set
    else set)

unfoldable pub get_address_map_from_polaris_instance : List SdkInstance → String → InstanceSet
unfolding add_instances_of
get_address_map_from_polaris_instance instances cluster = add_instances_of cluster instances []
