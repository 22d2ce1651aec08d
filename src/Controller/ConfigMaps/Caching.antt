-- ===== src/Controller/ConfigMaps/Caching.antt =====
-- What syncConfigMap leaves in the cache of ConfigMaps (pkg/controller/configmap.go).
use polaris_controller.Common.{◌≡◌, some, refl, eq_refl}
use polaris_controller.Common.Dict.{lookup, insert, lookup-insert}
use polaris_controller.Common.Outcome.{ok, modify, ◌>>◌}
use polaris_controller.Kube.{ConfigMap}
use polaris_controller.Controller.Tasks.{Task, key}
use polaris_controller.Controller.State.{found, Env, Controller, M}
use polaris_controller.Controller.Services.Caching.{>>-eq-ok}
use polaris_controller.Controller.ConfigMaps.{
  sync_config_map, sync_fetched, stored_config_map, process_found, operation_config_map,
}

module _ (env : Env) (t : Task) (cm : ConfigMap) where
  abbrev keep : M (Unit {0})
  keep = modify (λ q. record q {
    config_file_cache = insert (key t) (stored_config_map env t.operation cm) q.config_file_cache;
  })

  kept_after :
      (m : M (Unit {0})) (p : Controller)
      → ((m >> keep) p).0 ≡ ok tt
      → lookup (key t) ((m >> keep) p).1.config_file_cache
        ≡ some (stored_config_map env t.operation cm)
  kept_after m p e = rw (>>-eq-ok m keep p e, lookup-insert, eq_refl) refl

-- When syncConfigMap finds the ConfigMap of a task and returns no error, the cache holds it
-- under the task's key, with the group and the label of the cluster unless it was copied.
pub sync_config_map-stores :
    (env : Env) (t : Task) (cm : ConfigMap) (p : Controller)
    → env.config_maps t.namespace t.name ≡ found cm
    → (sync_config_map env t p).0 ≡ ok tt
    → lookup (key t) (sync_config_map env t p).1.config_file_cache
      ≡ some (stored_config_map env t.operation cm)
unfolding sync_config_map sync_fetched
sync_config_map-stores env t cm p f = rw f (
    kept_after env t cm
      (process_found env (operation_config_map env t.operation cm)
        (lookup (key t) p.config_file_cache))
      p)
