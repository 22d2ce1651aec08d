-- ===== src/Address/Keyed.antt =====
-- The keys of the maps of addresses (pkg/util/address/address.go), and what they do for the
-- comparison of instances.
use mathlib.Core.Path.{subst}
use polaris_controller.Common.{
  String, ◌≡◌, refl, sym, Bool, true, false, ◌==◌, Option, none, some, List, [], ◌∷◌, Bool-cases,
  inl, inr, All,
}
use polaris_controller.Common.Int.{ℤ}
use polaris_controller.Common.Dict.{Dict, index, insert, merge}
use polaris_controller.Util.Names.Annotation
use polaris_controller.Util.Filter.{get_weight_from_service}
use polaris_controller.Util.Text.{atoi}
use polaris_controller.Kube.{
  Service, TargetRef, EndpointPort, EndpointAddress, EndpointSubset, Endpoints,
}
use polaris_controller.Address.{
  Address, SdkInstance, InstanceSet, PodLister, address_key, with_pod, build_ports, build_addresses,
  build_for, add_set, add_addresses, add_subsets, get_address_map_from_endpoints, add_instances_of,
  is_sync_instance, is_stateful, get_address_map_from_polaris_instance,
}

abbrev pub key_of : Address → String
key_of a = address_key a.ip a.port

-- Every instance stands under the key that its host and port give.
abbrev pub WellKeyed : InstanceSet → Type 0
WellKeyed = All (λ kv. kv.0 ≡ key_of kv.1)

WellKeyed-insert :
    (k : String) (a : Address) (m : InstanceSet)
    → k ≡ key_of a
    → WellKeyed m
    → WellKeyed (insert k a m)
unfolding insert
WellKeyed-insert k a [] e w = (e, tt)
WellKeyed-insert k a ((j, b) ∷ m) e (same, w) = elim (Bool-cases (j == k)) [
  | inl here ↦ rw here (e, w)
  | inr other ↦ rw other (same, WellKeyed-insert k a m e w)
]

WellKeyed-merge :
    (into from : InstanceSet) → WellKeyed into → WellKeyed from → WellKeyed (merge into from)
unfolding merge
WellKeyed-merge into [] w v = w
WellKeyed-merge into ((k, a) ∷ from) w (e, v) =
    WellKeyed-merge (insert k a into) from (WellKeyed-insert k a into e w) v

key_of-with_pod : (a : Address) (o : Option (Dict String)) → key_of (with_pod a o) ≡ key_of a
unfolding with_pod
key_of-with_pod a none = refl
key_of-with_pod a (some labels) = refl

-- A map that is there is well keyed.
abbrev IsKeyed : Option InstanceSet → Type 0
IsKeyed none = Unit
IsKeyed (some set) = WellKeyed set

module _ (pods : PodLister) (default_weight : ℤ) (weights : Dict ℤ) where
  build_ports-WellKeyed :
      (ip : String) (target : TargetRef) (ordinal : String) (isolate : Bool)
      (ports : List EndpointPort) (set : InstanceSet)
      → WellKeyed set
      → WellKeyed (build_ports pods default_weight weights ip target ordinal isolate ports set)
  unfolding build_ports
  build_ports-WellKeyed ip target ordinal isolate [] set w = w
  build_ports-WellKeyed ip target ordinal isolate (port ∷ ports) set w =
      build_ports-WellKeyed ip target ordinal isolate ports _
        (WellKeyed-insert _ _ set (sym (key_of-with_pod _ (pods target.namespace target.name))) w)

  build_for-IsKeyed :
      (a : EndpointAddress) (subset : EndpointSubset) (has_index isolate : Bool)
      (o : Option TargetRef)
      → IsKeyed (build_for pods default_weight weights a subset has_index isolate o)
  unfolding build_for
  build_for-IsKeyed a subset has_index isolate none = tt
  build_for-IsKeyed a subset has_index isolate (some target) =
      build_ports-WellKeyed a.ip target _ isolate subset.ports [] tt

  add_set-IsKeyed :
      (set : InstanceSet) (o : Option InstanceSet)
      → WellKeyed set
      → IsKeyed o
      → IsKeyed (add_set pods default_weight weights set o)
  unfolding add_set
  add_set-IsKeyed set none w v = tt
  add_set-IsKeyed set (some addresses) w v = WellKeyed-merge set addresses w v

  add_addresses-IsKeyed :
      (subset : EndpointSubset) (has_index isolate : Bool) (ads : List EndpointAddress)
      (set : Option InstanceSet)
      → IsKeyed set
      → IsKeyed (add_addresses pods default_weight weights subset has_index isolate ads set)
  unfolding add_addresses build_addresses
  add_addresses-IsKeyed subset has_index isolate ads none w = tt
  add_addresses-IsKeyed subset has_index isolate [] (some set) w = w
  add_addresses-IsKeyed subset has_index isolate (a ∷ ads) (some set) w =
      add_addresses-IsKeyed subset has_index isolate ads _
        (add_set-IsKeyed set _ w (build_for-IsKeyed a subset has_index isolate a.target_ref))

  add_subsets-IsKeyed :
      (has_index : Bool) (subsets : List EndpointSubset) (set : Option InstanceSet)
      → IsKeyed set
      → IsKeyed (add_subsets pods default_weight weights has_index subsets set)
  unfolding add_subsets
  add_subsets-IsKeyed has_index [] set w = w
  add_subsets-IsKeyed has_index (subset ∷ subsets) set w = add_subsets-IsKeyed has_index subsets _ (
      add_addresses-IsKeyed subset has_index true subset.not_ready_addresses _
        (add_addresses-IsKeyed subset has_index false subset.addresses set w))

add_instances_of-WellKeyed :
    (cluster : String) (instances : List SdkInstance) (set : InstanceSet)
    → WellKeyed set
    → WellKeyed (add_instances_of cluster instances set)
unfolding add_instances_of
add_instances_of-WellKeyed cluster [] set w = w
add_instances_of-WellKeyed cluster (i ∷ rest) set w =
    elim (Bool-cases (is_sync_instance cluster i)) [
      | inl here ↦
          rw here (add_instances_of-WellKeyed cluster rest _ (WellKeyed-insert _ _ set refl w))
      | inr other ↦ rw other (add_instances_of-WellKeyed cluster rest set w)
    ]

IsKeyed-some :
    (o : Option InstanceSet) (spec : InstanceSet) → IsKeyed o → o ≡ some spec → WellKeyed spec
IsKeyed-some o spec w e = subst IsKeyed e w

pub endpoints-WellKeyed :
    (service : Service) (endpoint : Endpoints) (pods : PodLister) (weights : Dict ℤ)
    (spec : InstanceSet)
    → get_address_map_from_endpoints service endpoint pods weights ≡ some spec
    → WellKeyed spec
unfolding get_address_map_from_endpoints
endpoints-WellKeyed service endpoint pods weights spec e =
    IsKeyed-some _ spec
      (add_subsets-IsKeyed pods (get_weight_from_service atoi service) weights
        (is_stateful (index Annotation.workload_kind service.annotations)) endpoint.subsets
        (some []) tt)
      e

pub instances-WellKeyed :
    (instances : List SdkInstance) (cluster : String)
    → WellKeyed (get_address_map_from_polaris_instance instances cluster)
unfolding get_address_map_from_polaris_instance
instances-WellKeyed instances cluster = add_instances_of-WellKeyed cluster instances [] tt
