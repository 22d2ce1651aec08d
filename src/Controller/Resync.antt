-- ===== src/Controller/Resync.antt =====
-- pkg/controller/rsync.go: the periodic comparison with what was last seen, and the health check.
pub mod Health
pub mod Misses
use polaris_controller.Common.{
  ℕ, zero, suc, ◌+◌, ◌-◌, String, Bool, true, false, not, ltb, leb, if◌then◌else◌, Option, none,
  some, [], ◌∷◌,
}
use polaris_controller.Common.Dict.{Dict, lookup}
use polaris_controller.Common.Outcome.{ok, panic, pure, modify, when, ◌>>=◌, ◌>>◌}
use polaris_controller.Kube.{Service, ConfigMap}
use polaris_controller.Api.Http.{check_health_request}
use polaris_controller.Controller.Tasks.{kubernetes_service, operation_empty, Task}
use polaris_controller.Controller.State.{
  Env, Controller, M, api, insert_task, allow_sync_from_config_map,
}
use polaris_controller.Controller.Events.{update_service_event, update_config_map_event}

-- The length of a text, and a prefix of it. Keys are made of names of the cluster, which are ASCII,
-- so that a character is a byte.
unfoldable pub text_length : String → ℕ
text_length String.[] = 0
text_length (String.◌∷◌ c s) = suc (text_length s)

unfoldable pub text_take : ℕ → String → String
text_take zero s = ""
text_take (suc n) String.[] = ""
text_take (suc n) (String.◌∷◌ c s) = String.◌∷◌ c (text_take n s)

-- GetOriginKeyWithResyncQueueKey: key[:len(key)-len("~resync")], which panics on a shorter key.
unfoldable pub get_origin_key_with_resync_queue_key : String → Option String
unfolding text_length text_take
get_origin_key_with_resync_queue_key key =
    if ltb (text_length key) 7 then none else some (text_take (text_length key - 7) key)

-- The task of a periodic comparison. Config maps get the type of services, too.
abbrev pub resync_task : (namespace name : String) → Task
resync_task namespace name = record {
  namespace = namespace;
  name = name;
  rsync = true;
  object_type = kubernetes_service;
  operation = operation_empty;
}

-- checkHealth after the server's answer. A recovered server makes the next synchronisation of
-- every service a first one.
unfoldable pub after_check : Bool → Controller → Controller
after_check true p =
    if not p.is_polaris_server_healthy
    then record p {
      is_polaris_server_healthy = true;
      service_cache = [];
      polaris_server_failed_times = 0;
    }
    else record p { polaris_server_failed_times = 0 }
after_check false p =
    if p.is_polaris_server_healthy
    then if leb 3 (p.polaris_server_failed_times + 1)
      then record p { is_polaris_server_healthy = false; polaris_server_failed_times = 0 }
      else record p { polaris_server_failed_times = p.polaris_server_failed_times + 1 }
    else p

module _ (env : Env) where
  resync_service_cached : Service → Option Service → Controller → Controller
  resync_service_cached value none p = insert_task (resync_task value.namespace value.name) p
  resync_service_cached value (some v) p = update_service_event env v value p

  resync_service_by : Option String → Service → M (Unit {0})
  unfolding resync_service_cached
  resync_service_by none value p = (panic, p)
  resync_service_by (some origin) value p =
      (ok tt, resync_service_cached value (lookup origin p.service_cache) p)

  -- One round of the first loop of resyncWorker.
  unfoldable pub resync_service : String → Service → M (Unit {0})
  unfolding resync_service_by
  resync_service key value p = resync_service_by (get_origin_key_with_resync_queue_key key) value p

  resync_config_map_cached : ConfigMap → Option ConfigMap → Controller → Controller
  resync_config_map_cached value none p = insert_task (resync_task value.namespace value.name) p
  resync_config_map_cached value (some v) p = update_config_map_event env v value p

  resync_config_map_by : Option String → ConfigMap → M (Unit {0})
  unfolding resync_config_map_cached
  resync_config_map_by none value p = (panic, p)
  resync_config_map_by (some origin) value p =
      (ok tt, resync_config_map_cached value (lookup origin p.config_file_cache) p)

  -- One round of the second.
  unfoldable pub resync_config_map : String → ConfigMap → M (Unit {0})
  unfolding resync_config_map_by
  resync_config_map key value p =
      resync_config_map_by (get_origin_key_with_resync_queue_key key) value p

  unfoldable pub resync_services : Dict Service → M (Unit {0})
  resync_services [] = pure tt
  resync_services ((key, value) ∷ rest) = resync_service key value >> resync_services rest

  unfoldable pub resync_config_maps : Dict ConfigMap → M (Unit {0})
  resync_config_maps [] = pure tt
  resync_config_maps ((key, value) ∷ rest) = resync_config_map key value >> resync_config_maps rest

  -- The entries that the loops visit are those at their start.
  unfoldable pub resync_worker : M (Unit {0})
  resync_worker p =
      if not p.is_polaris_server_healthy
      then (ok tt, p)
      else (do
        resync_services p.resync_service_cache
        when (allow_sync_from_config_map env.config)
            (resync_config_maps p.resync_config_file_cache))
          p

  unfoldable pub check_health : M (Unit {0})
  check_health = do
    healthy ← api (check_health_request env.server env.access)
    modify (after_check healthy)
