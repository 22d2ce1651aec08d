-- ===== src/Controller/Instances/Frames.antt =====
-- processSyncInstance leaves the cache of services as it is (pkg/controller/endpoint.go).
use polaris_controller.Common.{refl, Option, some, none, List, [], ◌∷◌}
use polaris_controller.Common.Outcome.{lift, pure, ◌>>◌, attempt, when}
use polaris_controller.Kube.{Service, Endpoints}
use polaris_controller.Address.{SdkInstance, Address, InstanceSet, get_address_map_from_endpoints}
use polaris_controller.Controller.State.{Fetch, found, not_found, failed, Env}
use polaris_controller.Controller.Frames.{
  Keeps, Keeps-bind, Keeps-then, Keeps-when, Keeps-attempt, Keeps-attempted,
}
use polaris_controller.Controller.Instances.{
  add_instances, delete_instances, update_instances, get_all_instance, allows_register,
  instances_to_add, instances_to_update, apply_changes, sync_addresses, sync_endpoints,
  process_sync_instance, get_custom_weight,
}

module _ (env : Env) (service : Service) where
  add_instances-Keeps : (ads : List Address) → Keeps (add_instances env service ads)
  unfolding add_instances
  add_instances-Keeps [] p = refl
  add_instances-Keeps (a ∷ rest) p =
      Keeps-bind (lift (instances_to_add env service (a ∷ rest))) _ (λ q. refl)
        (λ instances q. refl) p

  pub delete_instances-Keeps : (ads : List Address) → Keeps (delete_instances env service ads)
  unfolding delete_instances
  delete_instances-Keeps [] p = refl
  delete_instances-Keeps (a ∷ rest) p = refl

  update_instances-Keeps : (ads : List Address) → Keeps (update_instances env service ads)
  unfolding update_instances
  update_instances-Keeps [] p = refl
  update_instances-Keeps (a ∷ rest) p =
      Keeps-bind (lift (instances_to_update env service (a ∷ rest))) _ (λ q. refl)
        (λ instances q. refl) p

  pub get_all_instance-Keeps : Keeps (get_all_instance env service)
  unfolding get_all_instance
  get_all_instance-Keeps p = refl

  apply_changes-Keeps :
      (c : List Address × List Address × List Address) → Keeps (apply_changes env service c)
  unfolding apply_changes
  apply_changes-Keeps (adds, deletes, updates) =
      let register =
        attempt (add_instances env service adds)
        >> (attempt (update_instances env service updates) >> pure tt) in
      let delete = attempt (delete_instances env service deletes) >> pure tt in
      Keeps-then (when (allows_register env service) register) delete
        (Keeps-when (allows_register env service) register (
          Keeps-then (attempt (add_instances env service adds))
            (attempt (update_instances env service updates) >> pure tt)
            (Keeps-attempt (add_instances env service adds) (add_instances-Keeps adds))
            (Keeps-attempted (update_instances env service updates)
              (update_instances-Keeps updates))))
        (Keeps-attempted (delete_instances env service deletes) (delete_instances-Keeps deletes))

  sync_addresses-Keeps :
      (o : Option InstanceSet) (instances : List SdkInstance)
      → Keeps (sync_addresses env service o instances)
  unfolding sync_addresses
  sync_addresses-Keeps none instances p = refl
  sync_addresses-Keeps (some spec) instances p = apply_changes-Keeps _ p

  sync_endpoints-Keeps : (f : Fetch Endpoints) → Keeps (sync_endpoints env service f)
  unfolding sync_endpoints
  sync_endpoints-Keeps not_found p = refl
  sync_endpoints-Keeps (failed e) p = refl
  sync_endpoints-Keeps (found endpoints) p =
      Keeps-bind (get_all_instance env service)
        (sync_addresses env service (
          get_address_map_from_endpoints service endpoints env.pods
            (get_custom_weight env service)))
        get_all_instance-Keeps (sync_addresses-Keeps _) p

  pub process_sync_instance-Keeps : Keeps (process_sync_instance env service)
  unfolding process_sync_instance
  process_sync_instance-Keeps = sync_endpoints-Keeps (env.endpoints service.namespace service.name)
