-- ===== src/Controller/Services.antt =====
-- pkg/controller/service.go and apis.go: syncService and what it does with a service that was
-- added, changed or deleted.
pub mod Caching
pub mod Frames
pub mod Isolation
use polaris_controller.Common.{
  String, Bool, not, ◌&&◌, ◌==◌, if◌then◌else◌, Option, none, some, List, [], ◌∷◌,
}
use polaris_controller.Common.Dict.{Dict, lookup, insert, delete, index, merge}
use polaris_controller.Common.Outcome.{
  Error, not_found_service, failed_delete_and_update, Outcome, ok, err, panic, pure, raise, lift,
  modify, attempt, when, ◌>>=◌, ◌>>◌,
}
use polaris_controller.Kube.{ObjectMeta, Service}
use polaris_controller.Util.Names.{
  is_enable_sync, ServiceChangeType, service_polaris_delete, instance_ttl_changed,
  instance_weight_changed, instance_enable_register_changed, instance_metadata_changed,
  instance_custom_weight_changed, workload_kind, unchanged,
}
use polaris_controller.Util.Names.Annotation
use polaris_controller.Util.Filter.{get_namespace, if_need_create_service_alias}
use polaris_controller.Api.Types.{PolarisService}
use polaris_controller.Api.Services.{
  create_namespaces, get_service_request, create_service_request, create_service_alias_request,
  update_service_request,
}
use polaris_controller.Controller.Tasks.{Operation, resource_key_flag_add, Task, key}
use polaris_controller.Controller.State.{Fetch, found, not_found, failed, Env, M, api, insert_task}
use polaris_controller.Controller.Select.{is_polaris_service, compare_service_change}
use polaris_controller.Controller.Instances.{
  delete_instances, get_all_instance, filter_polaris_metadata, process_sync_instance,
}

-- metav1.SetMetaDataAnnotation
abbrev pub set_annotation : String → String → ObjectMeta → ObjectMeta
set_annotation k v meta = record meta { annotations = insert k v meta.annotations }

-- Requests whose error is logged, and also returned.
abbrev pub ignore_error : M (Unit {0}) → M (Unit {0})
ignore_error m = do attempt m; pure tt

-- The polarisSvc that updateService sends back. Assigning to a nil map, which JSON gives where the
-- service has no metadata, panics as soon as there is a label to assign.
unfoldable pub merge_labels : Dict String → PolarisService → Outcome PolarisService
merge_labels labels svc = elim svc.metadata [
  | some cur_labels ↦ ok (record svc { metadata = some (merge cur_labels labels) })
  | none ↦ elim labels [ [] ↦ ok svc | _ ∷ _ ↦ panic ]
]

module _ (env : Env) where
  update_first : Service → List PolarisService → M (Unit {0})
  update_first cur [] = raise not_found_service
  update_first cur (polaris_svc ∷ rest) = do
    merged ← lift (merge_labels cur.labels polaris_svc)
    api (update_service_request env.server env.access (merged ∷ []))

  -- updateService
  unfoldable pub update_service : Service → M (Unit {0})
  unfolding update_first
  update_service cur = do
    services ← api (get_service_request env.server env.access cur)
    update_first cur services

  unfoldable pub process_delete_service : Service → M (Unit {0})
  process_delete_service service = do
    instances ← get_all_instance env service
    delete_instances env service (filter_polaris_metadata env instances)

  wants_alias : Service → Bool
  wants_alias service =
      not (index Annotation.alias_namespace service.annotations == "")
      && not (index Annotation.alias_service service.annotations == "")

  unfoldable pub process_sync_namespace_and_service : Service → M (Unit {0})
  unfolding wants_alias
  process_sync_namespace_and_service service = when (is_polaris_service env service) (do
    api (create_namespaces env.server env.access (get_namespace service))
    api (create_service_request env.server env.access service)
    when (wants_alias service) (api (create_service_alias_request env.server env.access service)))

  both_or_failed : Option Error → Option Error → Outcome (Unit {0})
  both_or_failed none none = ok tt
  both_or_failed _ _ = err failed_delete_and_update

  -- The switch of processUpdateService.
  unfoldable pub process_change : ServiceChangeType → Service → Service → M (Unit {0})
  unfolding both_or_failed
  process_change service_polaris_delete old cur = process_delete_service old
  process_change workload_kind old cur = do
    sync_err ← attempt (process_sync_instance env cur)
    delete_err ← attempt (process_delete_service old)
    lift (both_or_failed sync_err delete_err)
  process_change instance_enable_register_changed old cur = pure tt
  process_change instance_ttl_changed old cur = process_sync_instance env cur
  process_change instance_weight_changed old cur = process_sync_instance env cur
  process_change instance_metadata_changed old cur = process_sync_instance env cur
  process_change instance_custom_weight_changed old cur = process_sync_instance env cur
  process_change unchanged old cur = process_sync_instance env cur

  unfoldable pub process_update_service : Service → Service → M (Unit {0})
  process_update_service old cur = do
    when (is_polaris_service env cur && if_need_create_service_alias old cur)
        (ignore_error (api (create_service_alias_request env.server env.access cur)))
    ignore_error (update_service cur)
    process_change (compare_service_change env old cur) old cur

  -- The cache keeps a service that could not be removed, and the task is queued again.
  forget_service : Task → Option Error → M (Unit {0})
  forget_service task none =
      modify (λ p. record p { service_cache = delete (key task) p.service_cache })
  forget_service task (some e) = do modify (insert_task task); raise e

  -- syncService where the lister does not find the service.
  sync_deleted : Task → Option Service → M (Unit {0})
  unfolding forget_service
  sync_deleted task none = pure tt
  sync_deleted task (some cached_service) = do
    process_error ← attempt (process_delete_service cached_service)
    forget_service task process_error

  -- The service that is worked on: a task of the namespace flow marks it for synchronisation.
  unfoldable pub operation_service : Operation → Service → Service
  operation_service op service =
      if op == resource_key_flag_add && is_polaris_service env service
      then record service { meta = set_annotation Annotation.sync is_enable_sync service.meta }
      else service

  store_service : Task → Service → M (Unit {0})
  store_service task service =
      modify (λ p. record p { service_cache = insert (key task) service p.service_cache })

  sync_found : Task → Service → Service → Option Service → M (Unit {0})
  unfolding store_service
  sync_found task service operation none = do
    process_sync_namespace_and_service operation
    when (is_polaris_service env operation)
        (do process_sync_instance env operation; store_service task service)
  sync_found task service operation (some cached_service) = do
    process_update_service cached_service operation
    store_service task service

  sync_fetched : Task → Fetch Service → M (Unit {0})
  unfolding sync_deleted sync_found
  sync_fetched task not_found p = sync_deleted task (lookup (key task) p.service_cache) p
  sync_fetched task (failed e) p = (ok tt, insert_task task p)
  sync_fetched task (found service) p =
      sync_found task service (operation_service task.operation service)
        (lookup (key task) p.service_cache) p

  unfoldable pub sync_service : Task → M (Unit {0})
  unfolding sync_fetched
  sync_service task = sync_fetched task (env.services task.namespace task.name)
