-- ===== src/Controller/Instances.antt =====
-- pkg/controller/apis.go and endpoint.go: the instances of a service, compared with those that
-- Polaris has, and the requests that make them agree.
pub mod Convergence
pub mod Frames
pub mod Ownership
use mathlib.Core.Option
use polaris_controller.Common.{
  ℕ, String, Bool, true, false, not, ◌&&◌, ◌||◌, ◌==◌, if◌then◌else◌, ltb, leb, Option, none, some,
  List, [], ◌∷◌, map, all, any, length,
}
use polaris_controller.Common.Dict.{Dict, lookup, insert, index, merge}
use polaris_controller.Common.Int.{ℤ, pos, negsuc, int_eq}
use polaris_controller.Common.Outcome.{
  remote, Outcome, ok, panic, pure, raise, crash, lift, attempt, when, ◌>>=◌, ◌>>◌, and_then,
  traverse,
}
use polaris_controller.Kube.{Service, Endpoints}
use polaris_controller.Util.Names.Annotation
use polaris_controller.Util.Names.{
  polaris_cluster_name, polaris_source, polaris_system_meta_set, polaris_default_meta_set,
}
use polaris_controller.Util.Filter.{get_namespace, get_service_name}
use polaris_controller.Util.Text.{atoi}
use polaris_controller.Address.{
  SdkInstance, Address, InstanceSet, is_sync_instance, get_address_map_from_endpoints,
  get_address_map_from_polaris_instance,
}
use polaris_controller.Api.Types.{source, HealthCheck, Instance}
use polaris_controller.Api.Instances.{
  add_instances_request, delete_instances_request, update_instances_request,
}
use polaris_controller.Controller.State.{Fetch, found, not_found, failed, Env, M, api}

abbrev pub global_token : String
global_token = "polaris@12345678"

-- noAllow
abbrev pub no_allow : String
no_allow = "false"

in_ttl_range : Option ℤ → Option ℕ
in_ttl_range none = none
in_ttl_range (some (negsuc n)) = none
in_ttl_range (some (pos ttl)) = if ltb 0 ttl && leb ttl 60 then some ttl else none

-- The heartbeat that the annotation asks for, if it is a number from 1 to 60.
unfoldable pub heart_beat_ttl : Service → Option ℕ
unfolding in_ttl_range
heart_beat_ttl service =
    let ttl_str = index Annotation.heart_beat_ttl service.annotations in
    if ttl_str == "" then none else in_ttl_range (atoi ttl_str)

abbrev pub has_ttl : Option ℕ → Bool
has_ttl none = false
has_ttl (some ttl) = true

-- The HealthCheck that addInstances builds, without a type, and that of updateInstances.
add_health_check : Option ℕ → HealthCheck
add_health_check none = record { kind = none; ttl = 0 }
add_health_check (some ttl) = record { kind = none; ttl = ttl }

update_health_check : Option ℕ → HealthCheck
update_health_check none = record { kind = none; ttl = 0 }
update_health_check (some ttl) = record { kind = some 0; ttl = ttl }

-- isPolarisInstanceHasCustomMeta
unfoldable pub is_polaris_instance_has_custom_meta : Dict String → Bool
is_polaris_instance_has_custom_meta m = ltb (length polaris_default_meta_set) (length m)

-- One key of the user's metadata: absent from the instance, or there with another value.
unfoldable pub meta_differs : Dict String → String → String → Bool
meta_differs old_metadata k v =
    if any (λ s. s == k) polaris_system_meta_set
    then false
    else elim (lookup k old_metadata) [ none ↦ true | some cur ↦ not (cur == v) ]

module _ (env : Env) where
  new_meta : String → Option (Dict String)
  new_meta metadata_str =
      if metadata_str == "" then some [] else (env.decode_strings metadata_str).1

  -- Writing to a nil map panics.
  with_own_keys : Address → Option (Dict String) → Outcome (Dict String)
  with_own_keys addr none = panic
  with_own_keys addr (some metadata) = ok (
      merge
        (insert polaris_cluster_name env.config.cluster_name
          (insert polaris_source source metadata))
        addr.metadata)

  -- mergeMetadataWithService
  unfoldable pub merge_metadata_with_service : Service → Address → Outcome (Dict String)
  unfolding new_meta with_own_keys
  merge_metadata_with_service service addr =
      with_own_keys addr (new_meta (index Annotation.metadata service.annotations))

  version_of : String → Address → String
  version_of version addr = if version == "" then addr.version else version

  add_instance_of : Service → Bool → Address → Dict String → Instance
  unfolding version_of add_health_check
  add_instance_of service healthy addr metadata = record {
    service = get_service_name service;
    namespace = get_namespace service;
    service_token = global_token;
    host = addr.ip;
    port = some addr.port;
    protocol = addr.protocol;
    version = version_of (index Annotation.custom_version metadata) addr;
    weight = some addr.weight;
    enable_health_check = some (has_ttl (heart_beat_ttl service));
    health_check = some (add_health_check (heart_beat_ttl service));
    healthy = some healthy;
    isolate = some addr.isolate;
    metadata = metadata;
  }

  -- All instances share the pointer `healthy`, so each is sent with the value that the last round
  -- leaves there.
  unfoldable pub instances_to_add : Service → List Address → Outcome (List Instance)
  unfolding add_instance_of traverse
  instances_to_add service addresses =
      let healthy = not (has_ttl (heart_beat_ttl service)) && all (λ a. a.healthy) addresses in
      traverse
        (λ addr.
          and_then (merge_metadata_with_service service addr)
            (λ metadata. ok (add_instance_of service healthy addr metadata)))
        addresses

  unfoldable pub instances_to_delete : Service → List Address → List Instance
  instances_to_delete service = map λ i. record {
    service = get_service_name service;
    namespace = get_namespace service;
    service_token = global_token;
    host = i.ip;
    port = some i.port;
    protocol = "";
    version = "";
    weight = none;
    enable_health_check = none;
    health_check = none;
    healthy = none;
    isolate = none;
    metadata = [];
  }

  update_instance_of : Service → Address → Dict String → Instance
  unfolding update_health_check
  update_instance_of service addr metadata = record {
    service = get_service_name service;
    namespace = get_namespace service;
    service_token = global_token;
    host = addr.ip;
    port = some addr.port;
    protocol = "";
    version = "";
    weight = some addr.weight;
    enable_health_check = some (has_ttl (heart_beat_ttl service));
    health_check = some (update_health_check (heart_beat_ttl service));
    healthy = some addr.healthy;
    isolate = some addr.isolate;
    metadata = metadata;
  }

  unfoldable pub instances_to_update : Service → List Address → Outcome (List Instance)
  unfolding update_instance_of traverse
  instances_to_update service = traverse λ addr.
      and_then (merge_metadata_with_service service addr)
        λ metadata. ok (update_instance_of service addr metadata)

  unfoldable pub add_instances : Service → List Address → M (Unit {0})
  add_instances service [] = pure tt
  add_instances service (a ∷ rest) = lift (instances_to_add service (a ∷ rest)) >>= λ instances.
      api (add_instances_request env.server env.access env.int_of_inf instances env.config.size)

  unfoldable pub delete_instances : Service → List Address → M (Unit {0})
  delete_instances service [] = pure tt
  delete_instances service (a ∷ rest) = api (
      delete_instances_request env.server env.access env.int_of_inf
        (instances_to_delete service (a ∷ rest)) env.config.size)

  unfoldable pub update_instances : Service → List Address → M (Unit {0})
  update_instances service [] = pure tt
  update_instances service (a ∷ rest) =
      lift (instances_to_update service (a ∷ rest)) >>= λ instances.
      api (update_instances_request env.server env.access env.int_of_inf instances env.config.size)

  -- getAllInstance: an error of the SDK is an empty list.
  unfoldable pub get_all_instance : Service → M (List SdkInstance)
  get_all_instance service p = (
    ok (
        Option.get_or
          (env.get_all_instances p.sent (get_namespace service) (get_service_name service)) []),
    p,
  )

  -- A range over a nil map makes no round.
  entries : Option (Dict String) → Dict String
  entries none = []
  entries (some m) = m

  -- The comparison of the user's metadata with that of an instance.
  meta_update : String → Dict String → Bool
  unfolding entries
  meta_update metadata_str old_metadata =
      if metadata_str == ""
      then is_polaris_instance_has_custom_meta old_metadata
      else (env.decode_strings metadata_str).0
        && any (λ kv. meta_differs old_metadata kv.0 kv.1)
            (entries (env.decode_strings metadata_str).1)

  meta_update_of : String → Option (Dict String) → Bool
  meta_update_of metadata_str none = true
  meta_update_of metadata_str (some old_metadata) = meta_update metadata_str old_metadata

  bool_eq : Bool → Bool → Bool
  bool_eq true b = b
  bool_eq false b = not b

  unfoldable pub instance_update : Service → Address → Address → SdkInstance → Bool
  unfolding meta_update meta_update_of bool_eq
  instance_update service spec cur registered =
      not (bool_eq registered.enable_health_check (has_ttl (heart_beat_ttl service)))
      || not (bool_eq registered.healthy spec.healthy)
      || not (bool_eq registered.isolated spec.isolate)
      || not (int_eq cur.weight spec.weight)
      || not (cur.protocol == spec.protocol)
      || meta_update_of (index Annotation.metadata service.annotations) registered.metadata

  -- compareInstanceUpdate: whether a registered instance differs. Every address that is compared
  -- comes from Polaris; one without its instance, a nil interface, is not reached.
  unfoldable pub compare_instance_update : Service → Address → Address → Bool
  compare_instance_update service spec cur = elim cur.polaris_instance [
    | none ↦ false
    | some registered ↦ instance_update service spec cur registered
  ]

  keep_missing : Option Address → Address → List Address → List Address
  keep_missing none instance rest = instance ∷ rest
  keep_missing (some _) instance rest = rest

  -- The two loops of CompareInstance.
  unfoldable pub added_of : InstanceSet → InstanceSet → List Address
  unfolding keep_missing
  added_of cur [] = []
  added_of cur ((k, instance) ∷ spec) = keep_missing (lookup k cur) instance (added_of cur spec)

  unfoldable pub updated_of : Service → InstanceSet → InstanceSet → List Address
  updated_of service cur [] = []
  updated_of service cur ((k, instance) ∷ spec) =
      let rest = updated_of service cur spec in
      elim (lookup k cur) [
        | none ↦ rest
        | some registered ↦
            if compare_instance_update service instance registered then instance ∷ rest else rest
      ]

  -- CompareInstance: the instances to add, to delete and to update.
  unfoldable pub compare_instance :
      Service → InstanceSet → InstanceSet → List Address × List Address × List Address
  compare_instance service spec cur =
      (added_of cur spec, added_of spec cur, updated_of service cur spec)

  -- filterPolarisMetadata
  unfoldable pub filter_polaris_metadata : List SdkInstance → List Address
  filter_polaris_metadata [] = []
  filter_polaris_metadata (instance ∷ rest) =
      let more = filter_polaris_metadata rest in
      if is_sync_instance env.config.cluster_name instance
      then record {
        ip = instance.host;
        port = instance.port;
        pod_name = "";
        ordinal = "";
        weight = pos 0;
        healthy = false;
        isolate = false;
        metadata = [];
        protocol = "";
        version = "";
        polaris_instance = none;
      }
        ∷ more
      else more

  -- getCustomWeight
  unfoldable pub get_custom_weight : Service → Dict ℤ
  get_custom_weight service =
      let custom_weight_str = index Annotation.custom_weight service.annotations in
      if custom_weight_str == "" then [] else env.decode_weights custom_weight_str

  -- The guard of the additions and updates in processSyncInstance.
  unfoldable pub allows_register : Service → Bool
  allows_register service =
      not (index Annotation.enable_register service.annotations == no_allow)
      || not (index Annotation.sync service.annotations == no_allow)

  -- The requests of processSyncInstance; their errors are logged only.
  apply_changes : Service → List Address × List Address × List Address → M (Unit {0})
  apply_changes service (add_ins, delete_ins, update_ins) = do
    when (allows_register service) (do
      attempt (add_instances service add_ins)
      attempt (update_instances service update_ins)
      pure tt)
    attempt (delete_instances service delete_ins)
    pure tt

  sync_addresses : Service → Option InstanceSet → List SdkInstance → M (Unit {0})
  unfolding apply_changes
  sync_addresses service none instances = crash
  sync_addresses service (some spec_ips) instances = apply_changes service (
      compare_instance service spec_ips
        (get_address_map_from_polaris_instance instances env.config.cluster_name))

  sync_endpoints : Service → Fetch Endpoints → M (Unit {0})
  unfolding sync_addresses
  sync_endpoints service not_found = raise (remote 404)
  sync_endpoints service (failed e) = raise (remote e)
  sync_endpoints service (found endpoints) = do
    instances ← get_all_instance service
    sync_addresses service
        (get_address_map_from_endpoints service endpoints env.pods (get_custom_weight service))
        instances

  unfoldable pub process_sync_instance : Service → M (Unit {0})
  unfolding sync_endpoints
  process_sync_instance service =
      sync_endpoints service (env.endpoints service.namespace service.name)
