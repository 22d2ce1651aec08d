-- ===== src/Address/Panics.antt =====
-- When the addresses of endpoints cannot be read.
use polaris_controller.Common.{
  ◌≡◌, refl, Bool, true, false, ◌&&◌, Option, none, some, List, [], ◌∷◌, arith, all,
}
use polaris_controller.Common.Int.{ℤ}
use polaris_controller.Common.Dict.{Dict, index}
use polaris_controller.Kube.{Service, TargetRef, EndpointAddress, EndpointSubset, Endpoints}
use polaris_controller.Util.Names.Annotation
use polaris_controller.Util.Filter.{get_weight_from_service}
use polaris_controller.Util.Text.{atoi}
use polaris_controller.Address.{
  InstanceSet, PodLister, is_stateful, build_for, build_addresses, add_set, add_addresses,
  add_subsets, get_address_map_from_endpoints,
}

abbrev pub is_read : Option InstanceSet → Bool
is_read none = false
is_read (some set) = true

abbrev pub is_target : Option TargetRef → Bool
is_target none = false
is_target (some t) = true

abbrev pub has_target : EndpointAddress → Bool
has_target a = is_target a.target_ref

-- Every ready and every other address of the subset names its target.
abbrev pub has_targets : EndpointSubset → Bool
has_targets s = all has_target s.addresses && all has_target s.not_ready_addresses

module _ (pods : PodLister) (default_weight : ℤ) (weights : Dict ℤ) where
  is_read-build_for :
      (a : EndpointAddress) (subset : EndpointSubset) (has_index isolate : Bool)
      (o : Option TargetRef)
      → is_read (build_for pods default_weight weights a subset has_index isolate o) ≡ is_target o
  unfolding build_for
  is_read-build_for a subset has_index isolate none = refl
  is_read-build_for a subset has_index isolate (some t) = refl

  is_read-add_set :
      (set : InstanceSet) (o : Option InstanceSet)
      → is_read (add_set pods default_weight weights set o) ≡ is_read o
  unfolding add_set
  is_read-add_set set none = refl
  is_read-add_set set (some m) = refl

  is_read-add_addresses :
      (subset : EndpointSubset) (has_index isolate : Bool) (ads : List EndpointAddress)
      (set : Option InstanceSet)
      → is_read (add_addresses pods default_weight weights subset has_index isolate ads set)
        ≡ (is_read set && all has_target ads)
  unfolding add_addresses build_addresses
  is_read-add_addresses subset has_index isolate ads none = refl
  is_read-add_addresses subset has_index isolate [] (some set) = refl
  is_read-add_addresses subset has_index isolate (a ∷ ads) (some set) =
      rw
        (
          is_read-add_addresses subset has_index isolate ads (
              add_set pods default_weight weights set
                (build_for pods default_weight weights a subset has_index isolate a.target_ref)),
          is_read-add_set set
              (build_for pods default_weight weights a subset has_index isolate a.target_ref),
          is_read-build_for a subset has_index isolate a.target_ref,
        )
        refl

  is_read-add_subsets :
      (has_index : Bool) (subsets : List EndpointSubset) (set : Option InstanceSet)
      → is_read (add_subsets pods default_weight weights has_index subsets set)
        ≡ (is_read set && all has_targets subsets)
  unfolding add_subsets
  is_read-add_subsets has_index [] set = ground arith
  is_read-add_subsets has_index (s ∷ subsets) set =
      rw
        (
          is_read-add_subsets has_index subsets (
              add_addresses pods default_weight weights s has_index true s.not_ready_addresses
                (add_addresses pods default_weight weights s has_index false s.addresses set)),
          is_read-add_addresses s has_index true s.not_ready_addresses
              (add_addresses pods default_weight weights s has_index false s.addresses set),
          is_read-add_addresses s has_index false s.addresses set,
        )
        (ground arith)

-- The addresses of endpoints are read without a panic exactly when each address of each subset,
-- ready or not, names its target.
pub get_address_map_from_endpoints-reads :
    (service : Service) (endpoint : Endpoints) (pods : PodLister) (weights : Dict ℤ)
    → is_read (get_address_map_from_endpoints service endpoint pods weights)
      ≡ all has_targets endpoint.subsets
unfolding get_address_map_from_endpoints
get_address_map_from_endpoints-reads service endpoint pods weights =
    is_read-add_subsets pods (get_weight_from_service atoi service) weights
      (is_stateful (index Annotation.workload_kind service.annotations)) endpoint.subsets (some [])
