-- ===== src/Controller/Select.antt =====
-- pkg/controller/controller.go and endpoint.go: which services, config maps and endpoints are
-- Polaris's.
pub mod Decisions
use polaris_controller.Common.{
  String, Bool, true, false, not, ◌==◌, if◌then◌else◌, Option, none, some,
}
use polaris_controller.Common.Dict.{lookup}
use polaris_controller.Common.Outcome.{remote, Outcome, ok, err}
use polaris_controller.Kube.{ObjectMeta, Service, NamespaceObject, ConfigMap, Endpoints}
use polaris_controller.Util.Names.Annotation
use polaris_controller.Util.Names.{
  is_enable_sync, sync_mode_all, sync_mode_demand, source_from_polaris,
  internal_config_file_sync_source_key, ServiceChangeType, service_polaris_delete,
}
use polaris_controller.Util.Filter.{
  ignore_object, ignore_service, enable_sync, compare_service_annotations_change,
}
use polaris_controller.Controller.Tasks.{
  Operation, operation_empty, operation_add, kubernetes_service, Task,
}
use polaris_controller.Controller.State.{Fetch, found, not_found, failed, Env}

sync_enabled : String → Option String → Bool
sync_enabled mode none = not (mode == sync_mode_demand)
sync_enabled mode (some sync) = sync == is_enable_sync

-- IsNamespaceSyncEnable: without the annotation the mode "demand" says no, any other yes.
unfoldable pub is_namespace_sync_enable : String → NamespaceObject → Bool
unfolding sync_enabled
is_namespace_sync_enable sync_mode ns =
    sync_enabled sync_mode (lookup Annotation.sync ns.annotations)

-- The error of a lister that found nothing, by an arbitrary code.
abbrev pub lister_error : Outcome (Bool × Option Task)
lister_error = err (remote 404)

module _ (env : Env) where
  by_namespace : Option NamespaceObject → Bool
  by_namespace none = false
  by_namespace (some ns) = is_namespace_sync_enable env.config.sync_mode ns

  by_annotation : Option String → String → Bool
  unfolding by_namespace
  by_annotation none namespace = by_namespace (env.namespaces namespace)
  by_annotation (some sync) namespace = sync == is_enable_sync

  -- The annotation of the object comes first, and that of its namespace second.
  unfoldable pub sync_of : ObjectMeta → Bool
  unfolding by_annotation
  sync_of meta = by_annotation (lookup Annotation.sync meta.annotations) meta.namespace

  unfoldable pub is_polaris_service : Service → Bool
  is_polaris_service svc = if ignore_service svc then false else sync_of svc.meta

  from_polaris : Option String → Bool
  from_polaris none = false
  from_polaris (some val) = val == source_from_polaris

  -- A ConfigMap that was written from Polaris is never sent back.
  unfoldable pub is_polaris_config_map : ConfigMap → Bool
  unfolding from_polaris
  is_polaris_config_map svc =
      if ignore_object svc.meta
      then false
      else if from_polaris (lookup internal_config_file_sync_source_key svc.annotations)
      then false
      else sync_of svc.meta

  unfoldable pub compare_service_change : Service → Service → ServiceChangeType
  compare_service_change old new =
      if not (is_polaris_service new)
      then service_polaris_delete
      else compare_service_annotations_change old.annotations new.annotations

  abbrev endpoints_task : ObjectMeta → Operation → Task
  endpoints_task meta operation = record {
    namespace = meta.namespace;
    name = meta.name;
    rsync = false;
    object_type = kubernetes_service;
    operation = operation;
  }

  by_service_namespace : Service → Option NamespaceObject → Outcome (Bool × Option Task)
  by_service_namespace service none = lister_error
  by_service_namespace service (some namespace) =
      if enable_sync namespace.meta
      then ok (true, some (endpoints_task service.meta operation_add))
      else ok (false, none)

  by_service : Fetch Service → Outcome (Bool × Option Task)
  unfolding by_service_namespace
  by_service not_found = lister_error
  by_service (failed e) = err (remote e)
  by_service (found service) =
      if not (is_polaris_service service)
      then ok (false, none)
      else if enable_sync service.meta
      then ok (true, some (endpoints_task service.meta operation_empty))
      else by_service_namespace service (env.namespaces service.namespace)

  -- isPolarisEndpoints: whether endpoints are synchronised, and the task if they are.
  unfoldable pub is_polaris_endpoints : Endpoints → Outcome (Bool × Option Task)
  unfolding by_service
  is_polaris_endpoints endpoints =
      if env.config.sync_mode == sync_mode_all
      then ok (true, some (endpoints_task endpoints.meta operation_empty))
      else by_service (env.services endpoints.namespace endpoints.name)
