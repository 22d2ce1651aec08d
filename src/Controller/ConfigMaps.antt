-- ===== src/Controller/ConfigMaps.antt =====
-- pkg/controller/configmap.go: syncConfigMap and what it does with a ConfigMap that was added,
-- changed or deleted.
pub mod Caching
use polaris_controller.Common.{String, Bool, not, ◌&&◌, ◌==◌, if◌then◌else◌, Option, none, some}
use polaris_controller.Common.Dict.{lookup, insert, delete}
use polaris_controller.Common.Outcome.{ok, pure, raise, modify, attempt, when, ◌>>=◌, ◌>>◌}
use polaris_controller.Kube.{ObjectMeta, ConfigMap}
use polaris_controller.Util.Names.{is_enable_sync, internal_config_file_sync_source_cluster_key}
use polaris_controller.Util.Names.Annotation
use polaris_controller.Api.Services.{create_namespaces}
use polaris_controller.Api.Configs.{create_config_map, update_config_map, delete_config_map}
use polaris_controller.Controller.Tasks.{Operation, operation_add, Task, key}
use polaris_controller.Controller.State.{Fetch, found, not_found, failed, Env, M, api, insert_task}
use polaris_controller.Controller.Select.{is_polaris_config_map}
use polaris_controller.Controller.Services.{set_annotation}

-- metav1.SetMetaDataLabel
abbrev pub set_label : String → String → ObjectMeta → ObjectMeta
set_label k v meta = record meta { labels = insert k v meta.labels }

module _ (env : Env) where
  unfoldable pub process_delete_config_map : ConfigMap → M (Unit {0})
  process_delete_config_map configmap =
      if not env.config.allow_delete
      then pure tt
      else api (delete_config_map env.server env.access configmap)

  unfoldable pub process_update_config_map : ConfigMap → ConfigMap → M (Unit {0})
  process_update_config_map old cur =
      if not (is_polaris_config_map env cur)
      then process_delete_config_map cur
      else api (update_config_map env.server env.access cur)

  unfoldable pub process_sync_namespace_and_config_map : ConfigMap → M (Unit {0})
  process_sync_namespace_and_config_map configmap = when (is_polaris_config_map env configmap) (do
    api (create_namespaces env.server env.access configmap.namespace)
    api (create_config_map env.server env.access configmap))

  sync_deleted : Task → Option ConfigMap → M (Unit {0})
  sync_deleted task none = pure tt
  sync_deleted task (some cached) = do
    process_error ← attempt (process_delete_config_map cached)
    elim process_error [
      | none ↦ modify (λ p. record p { config_file_cache = delete (key task) p.config_file_cache })
      | some e ↦ (do modify (insert_task task); raise e)
    ]

  -- The group of a ConfigMap that names none.
  default_group_name : String
  default_group_name =
      if env.config.default_group == "" then env.config.cluster_name else env.config.default_group

  with_group : Option String → ConfigMap → ConfigMap
  unfolding default_group_name
  with_group (some group) cm = cm
  with_group none cm = record cm {
    meta = set_annotation Annotation.config_group default_group_name cm.meta;
  }

  -- The group and the label of this cluster, written into the object itself.
  unfoldable pub annotate : ConfigMap → ConfigMap
  unfolding with_group
  annotate cm =
      let grouped = with_group (lookup Annotation.config_group cm.annotations) cm in
      record grouped {
        meta =
            set_label internal_config_file_sync_source_cluster_key env.config.cluster_name
              grouped.meta;
      }

  -- Whether the object is copied and marked for synchronisation first.
  unfoldable pub is_copied : Operation → ConfigMap → Bool
  is_copied op cm = op == operation_add && is_polaris_config_map env cm

  unfoldable pub operation_config_map : Operation → ConfigMap → ConfigMap
  operation_config_map op cm =
      if is_copied op cm
      then annotate (record cm { meta = set_annotation Annotation.sync is_enable_sync cm.meta })
      else annotate cm

  -- What the cache keeps: the lister's object, which without the copy has been written to.
  unfoldable pub stored_config_map : Operation → ConfigMap → ConfigMap
  stored_config_map op cm = if is_copied op cm then cm else annotate cm

  process_found : ConfigMap → Option ConfigMap → M (Unit {0})
  process_found cm none = process_sync_namespace_and_config_map cm
  process_found cm (some cached) = process_update_config_map cached cm

  sync_fetched : Task → Fetch ConfigMap → M (Unit {0})
  unfolding sync_deleted process_found
  sync_fetched task not_found p = sync_deleted task (lookup (key task) p.config_file_cache) p
  sync_fetched task (failed e) p = (ok tt, insert_task task p)
  sync_fetched task (found cm) p =
      (do
        process_found (operation_config_map task.operation cm)
            (lookup (key task) p.config_file_cache)
        modify (λ q. record q {
          config_file_cache =
              insert (key task) (stored_config_map task.operation cm) q.config_file_cache;
        }))
        p

  unfoldable pub sync_config_map : Task → M (Unit {0})
  unfolding sync_fetched
  sync_config_map task = sync_fetched task (env.config_maps task.namespace task.name)
