-- ===== src/Controller/Namespaces.antt =====
-- pkg/controller/namespace.go: namespaces, and the objects in them when their annotation changes.
pub mod Updates
use polaris_controller.Common.{
  String, Bool, false, not, ◌&&◌, ◌||◌, ◌==◌, if◌then◌else◌, none, some, List, [], ◌∷◌,
}
use polaris_controller.Common.Outcome.{pure, crash, modify, when, ◌>>=◌, ◌>>◌}
use polaris_controller.Kube.{
  ObjectMeta, Service, NamespaceObject, ConfigMap, Object, namespace_object,
}
use polaris_controller.Util.Names.{sync_mode_demand}
use polaris_controller.Util.Filter.{ignore_object, ignore_service, enable_sync}
use polaris_controller.Api.Services.{create_namespaces}
use polaris_controller.Controller.Tasks.{
  ObjectType, kubernetes_namespace, kubernetes_service, kubernetes_config_map, Operation,
  operation_empty, operation_add, operation_delete, Task,
}
use polaris_controller.Controller.State.{
  Env, Controller, M, api, insert_task, allow_sync_from_config_map,
}
use polaris_controller.Controller.Select.{
  is_namespace_sync_enable, is_polaris_service, is_polaris_config_map,
}

abbrev pub task_of : ObjectType → Operation → ObjectMeta → Task
task_of object_type operation meta = record {
  namespace = meta.namespace;
  name = meta.name;
  rsync = false;
  object_type = object_type;
  operation = operation;
}

abbrev pub namespace_task : NamespaceObject → Task
namespace_task ns = record {
  namespace = ns.name;
  name = ns.name;
  rsync = false;
  object_type = kubernetes_namespace;
  operation = operation_empty;
}

-- The condition under which the loops of onNamespaceUpdate pass over an object.
unfoldable pub is_left_to_others : Bool → Operation → Bool
is_left_to_others is_polaris operation =
    is_polaris || (operation == operation_add && not is_polaris)

module _ (env : Env) where
  unfoldable pub on_namespace_add : Object → M (Unit {0})
  on_namespace_add (namespace_object ns) =
      if ignore_object ns.meta
      then pure tt
      else if env.config.sync_mode == sync_mode_demand && not (enable_sync ns.meta)
      then pure tt
      else modify (insert_task (namespace_task ns))
  on_namespace_add _ = crash

  -- The loops of syncServiceOnNamespaceUpdate and syncConfigMapOnNamespaceUpdate.
  unfoldable pub insert_services : Operation → List Service → Controller → Controller
  insert_services operation [] p = p
  insert_services operation (service ∷ services) p = insert_services operation services (
      if ignore_service service || is_left_to_others (is_polaris_service env service) operation
      then p
      else insert_task (task_of kubernetes_service operation service.meta) p)

  unfoldable pub insert_config_maps : Operation → List ConfigMap → Controller → Controller
  insert_config_maps operation [] p = p
  insert_config_maps operation (cm ∷ cms) p = insert_config_maps operation cms (
      if ignore_object cm.meta || is_left_to_others (is_polaris_config_map env cm) operation
      then p
      else insert_task (task_of kubernetes_config_map operation cm.meta) p)

  unfoldable pub sync_service_on_namespace_update :
      NamespaceObject → Operation → Controller → Controller
  sync_service_on_namespace_update old_ns operation p = elim (env.list_services old_ns.name) [
    | none ↦ p
    | some services ↦ insert_services operation services p
  ]

  unfoldable pub sync_config_map_on_namespace_update :
      NamespaceObject → Operation → Controller → Controller
  sync_config_map_on_namespace_update old_ns operation p =
      if not (allow_sync_from_config_map env.config)
      then p
      else elim (env.list_config_maps old_ns.name) [
        | none ↦ p
        | some cms ↦ insert_config_maps operation cms p
      ]

  update_operation : Bool → Operation
  update_operation is_cur_sync = if is_cur_sync then operation_add else operation_delete

  update_namespace : Bool → Bool → NamespaceObject → NamespaceObject → M (Unit {0})
  unfolding update_operation
  update_namespace is_old_sync is_cur_sync old_ns cur_ns = do
    when (not is_old_sync && is_cur_sync) (modify (insert_task (namespace_task cur_ns)))
    when (is_old_sync || is_cur_sync) (do
      modify (sync_service_on_namespace_update old_ns (update_operation is_cur_sync))
      modify (sync_config_map_on_namespace_update old_ns (update_operation is_cur_sync)))

  unfoldable pub on_namespace_update : Object → Object → M (Unit {0})
  unfolding update_namespace
  on_namespace_update (namespace_object old_ns) (namespace_object cur_ns) =
      if ignore_object old_ns.meta
      then pure tt
      else update_namespace (is_namespace_sync_enable env.config.sync_mode old_ns)
          (is_namespace_sync_enable env.config.sync_mode cur_ns) old_ns cur_ns
  on_namespace_update _ _ = crash

  unfoldable pub sync_namespace : String → M (Unit {0})
  sync_namespace name = api (create_namespaces env.server env.access name)
