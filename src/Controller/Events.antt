-- ===== src/Controller/Events.antt =====
-- pkg/controller/service.go, configmap.go and endpoint.go: the informers' event handlers.
pub mod Watching
use polaris_controller.Common.{Bool, true, not, ◌&&◌, ◌||◌, if◌then◌else◌, Option, some, List}
use polaris_controller.Common.Dict.{insert, delete}
use polaris_controller.Common.Outcome.{Outcome, ok, panic, pure, crash, modify}
use polaris_controller.Kube.{
  Service, ConfigMap, EndpointSubset, Object, service, endpoints, config_map,
}
use polaris_controller.Util.Filter.{ignore_object}
use polaris_controller.Controller.Tasks.{
  kubernetes_service, kubernetes_config_map, Operation, operation_add, operation_update,
  operation_delete, Task, key,
}
use polaris_controller.Controller.State.{
  Env, Controller, M, insert_task, allow_sync_from_config_map,
}
use polaris_controller.Controller.Select.{
  is_polaris_service, is_polaris_config_map, is_polaris_endpoints,
}
use polaris_controller.Controller.Namespaces.{task_of}

abbrev pub service_task : Operation → Service → Task
service_task operation svc = task_of kubernetes_service operation svc.meta

abbrev pub config_map_task : Operation → ConfigMap → Task
config_map_task operation cm = task_of kubernetes_config_map operation cm.meta

-- The task is queued, and the object stored for the periodic comparison, or removed from it.
abbrev pub watch_service : Task → Service → Controller → Controller
watch_service task obj p = record (insert_task task p) {
  resync_service_cache = insert (key task) obj p.resync_service_cache;
}

abbrev pub unwatch_service : Task → Controller → Controller
unwatch_service task p = record (insert_task task p) {
  resync_service_cache = delete (key task) p.resync_service_cache;
}

-- The object is the one that the next update is compared with.
abbrev pub remember_service : Task → Service → Controller → Controller
remember_service task obj p = record p { service_cache = insert (key task) obj p.service_cache }

-- The task is queued, and the object stored for the periodic comparison, or removed from it.
abbrev pub watch_config_map : Task → ConfigMap → Controller → Controller
watch_config_map task obj p = record (insert_task task p) {
  resync_config_file_cache = insert (key task) obj p.resync_config_file_cache;
}

abbrev pub unwatch_config_map : Task → Controller → Controller
unwatch_config_map task p = record (insert_task task p) {
  resync_config_file_cache = delete (key task) p.resync_config_file_cache;
}

-- The object is the one that the next update is compared with.
abbrev pub remember_config_map : Task → ConfigMap → Controller → Controller
remember_config_map task obj p = record p {
  config_file_cache = insert (key task) obj p.config_file_cache;
}

module _ (env : Env) where
  unfoldable pub on_service_add : Object → Controller → Controller
  on_service_add (service obj) p =
      if is_polaris_service env obj then watch_service (service_task operation_add obj) obj p else p
  on_service_add _ p = p

  -- The update after its type assertions; the periodic comparison calls it too.
  unfoldable pub update_service_event : Service → Service → Controller → Controller
  update_service_event old cur p =
      let is_old = is_polaris_service env old in
      let is_cur = is_polaris_service env cur in
      if not is_old && not is_cur
      then p
      else if not is_cur
      then unwatch_service (service_task operation_update cur) p
      else if is_old
      then watch_service (service_task operation_update cur) cur
          (remember_service (service_task operation_update cur) old p)
      else watch_service (service_task operation_add cur) cur p

  unfoldable pub on_service_update : Object → Object → Controller → Controller
  on_service_update (service old) (service cur) p = update_service_event old cur p
  on_service_update _ _ p = p

  unfoldable pub on_service_delete : Object → Controller → Controller
  on_service_delete (service obj) p =
      if is_polaris_service env obj
      then unwatch_service (service_task operation_delete obj) p
      else p
  on_service_delete _ p = p

  unfoldable pub on_config_map_add : Object → Controller → Controller
  on_config_map_add (config_map obj) p =
      if allow_sync_from_config_map env.config && is_polaris_config_map env obj
      then watch_config_map (config_map_task operation_add obj) obj p
      else p
  on_config_map_add _ p = p

  -- The update after its type assertions; the periodic comparison calls it too.
  unfoldable pub update_config_map_event : ConfigMap → ConfigMap → Controller → Controller
  update_config_map_event old cur p =
      let is_old = is_polaris_config_map env old in
      let is_cur = is_polaris_config_map env cur in
      if not (allow_sync_from_config_map env.config) || (not is_old && not is_cur)
      then p
      else if not is_cur
      then unwatch_config_map (config_map_task operation_update cur) p
      else if is_old
      then watch_config_map (config_map_task operation_update cur) cur
          (remember_config_map (config_map_task operation_update cur) old p)
      else watch_config_map (config_map_task operation_add cur) cur p

  unfoldable pub on_config_map_update : Object → Object → Controller → Controller
  on_config_map_update (config_map old) (config_map cur) p = update_config_map_event old cur p
  on_config_map_update _ _ p = p

  unfoldable pub on_config_map_delete : Object → Controller → Controller
  on_config_map_delete (config_map obj) p =
      if allow_sync_from_config_map env.config && is_polaris_config_map env obj
      then unwatch_config_map (config_map_task operation_delete obj) p
      else p
  on_config_map_delete _ p = p

  insert_if_sync : Outcome (Bool × Option Task) → M (Unit {0})
  insert_if_sync (ok (true, some task)) = modify (insert_task task)
  insert_if_sync panic = crash
  insert_if_sync _ = pure tt

  -- onEndpointAdd and onEndpointDelete, which assert the type of the object without a test.
  unfoldable pub on_endpoint_add : Object → M (Unit {0})
  unfolding insert_if_sync
  on_endpoint_add (endpoints e) =
      if ignore_object e.meta then pure tt else insert_if_sync (is_polaris_endpoints env e)
  on_endpoint_add _ = crash

  unfoldable pub on_endpoint_delete : Object → M (Unit {0})
  unfolding insert_if_sync
  on_endpoint_delete (endpoints e) =
      if ignore_object e.meta then pure tt else insert_if_sync (is_polaris_endpoints env e)
  on_endpoint_delete _ = crash

  -- `same_subsets` is reflect.DeepEqual. The old object need not be of the type; the new one is
  -- dereferenced.
  unfoldable pub on_endpoint_update :
      (List EndpointSubset → List EndpointSubset → Bool) → Object → Object → M (Unit {0})
  unfolding insert_if_sync
  on_endpoint_update same_subsets (endpoints old) (endpoints cur) =
      if ignore_object cur.meta || same_subsets old.subsets cur.subsets
      then pure tt
      else insert_if_sync (is_polaris_endpoints env cur)
  on_endpoint_update same_subsets _ (endpoints cur) = pure tt
  on_endpoint_update same_subsets _ _ = crash
