-- ===== src/Controller/Namespaces/Updates.antt =====
-- What an update of a namespace queues (pkg/controller/namespace.go).
use polaris_controller.Common.{
  ◌≡◌, refl, Bool, true, false, if◌then◌else◌, List, [], ◌∷◌, arith, Bool-cases, Option-cases, inl,
  inr,
}
use polaris_controller.Kube.{Service, NamespaceObject, ConfigMap, namespace_object}
use polaris_controller.Util.Filter.{ignore_object}
use polaris_controller.Controller.Tasks.{operation_add}
use polaris_controller.Controller.State.{Env, Controller, insert_task}
use polaris_controller.Controller.Select.{
  is_namespace_sync_enable, is_polaris_service, is_polaris_config_map,
}
use polaris_controller.Controller.Namespaces.{
  namespace_task, is_left_to_others, insert_services, insert_config_maps,
  sync_service_on_namespace_update, sync_config_map_on_namespace_update, on_namespace_update,
}

is_left_to_others-add : (b : Bool) → is_left_to_others b operation_add ≡ true
unfolding is_left_to_others
is_left_to_others-add true = refl
is_left_to_others-add false = refl

module _ (env : Env) where
  insert_services-add :
      (services : List Service) (p : Controller) → insert_services env operation_add services p ≡ p
  unfolding insert_services
  insert_services-add [] p = refl
  insert_services-add (s ∷ services) p =
      ground
        (arith, insert_services-add services p, is_left_to_others-add (is_polaris_service env s))

  sync_service-add :
      (ns : NamespaceObject) (p : Controller)
      → sync_service_on_namespace_update env ns operation_add p ≡ p
  unfolding sync_service_on_namespace_update
  sync_service-add ns p = elim (Option-cases (env.list_services ns.name)) [
    | inl none_there ↦ rw (none_there, sync_service_on_namespace_update) refl
    | inr (services, there) ↦
        rw (there, sync_service_on_namespace_update) (insert_services-add services p)
  ]

  insert_config_maps-add :
      (cms : List ConfigMap) (p : Controller) → insert_config_maps env operation_add cms p ≡ p
  unfolding insert_config_maps
  insert_config_maps-add [] p = refl
  insert_config_maps-add (cm ∷ cms) p =
      ground
        (arith, insert_config_maps-add cms p, is_left_to_others-add (is_polaris_config_map env cm))

  sync_config_map-add :
      (ns : NamespaceObject) (p : Controller)
      → sync_config_map_on_namespace_update env ns operation_add p ≡ p
  unfolding sync_config_map_on_namespace_update
  sync_config_map-add ns p = elim (Option-cases (env.list_config_maps ns.name)) [
    | inl none_there ↦ rw none_there (ground arith)
    | inr (cms, there) ↦ rw there (ground (arith, insert_config_maps-add cms p))
  ]

-- The switch to synchronisation of a namespace that is not ignored queues the task of the namespace
-- alone, and an update that leaves it synchronised queues nothing.
pub on_namespace_update-queues :
    (env : Env) (old cur : NamespaceObject) (p : Controller)
    → ignore_object old.meta ≡ false
    → is_namespace_sync_enable env.config.sync_mode cur ≡ true
    → (on_namespace_update env (namespace_object old) (namespace_object cur) p).1.added ≡ (
        if is_namespace_sync_enable env.config.sync_mode old
        then p.added
        else namespace_task cur ∷ p.added)
unfolding on_namespace_update insert_task
on_namespace_update-queues env old cur p seen syncs =
    elim (Bool-cases (is_namespace_sync_enable env.config.sync_mode old)) [
      | inl before ↦ rw (seen, syncs, before) (simp (sync_service-add, sync_config_map-add))
      | inr not_before ↦ rw (seen, syncs, not_before) (simp (sync_service-add, sync_config_map-add))
    ]
