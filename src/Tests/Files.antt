-- ===== src/Tests/Files.antt =====
-- Config files, ConfigMaps and workers at concrete inputs.
use polaris_controller.Common.{
  ◌+◌, ◌-◌, ◌%◌, ◌≡◌, ◌≢◌, false, leb, if◌then◌else◌, some, [], ◌∷◌, arith,
}
use polaris_controller.Common.Dict.{Dict}
use polaris_controller.Common.Outcome.{ok, panic}
use polaris_controller.Kube.{ConfigMap}
use polaris_controller.Api.Configs.{parse_config_file_request}
use polaris_controller.Controller.Tasks.{operation_add}
use polaris_controller.Controller.Select.{is_polaris_config_map}
use polaris_controller.Controller.ConfigMaps.{operation_config_map}
use polaris_controller.Executor.{delay_task, tick_task, Worker, new_worker, affinity_index}
use polaris_controller.Executor.Runs.{
  run_ticks, not_due, count, count_due, run_ticks-once, affinity_index-lem,
}
use polaris_controller.Watcher.{
  FileInfo, FileReference, FileContent, Watcher, allow_sync_to_config_map, config_map_of,
}
use polaris_controller.Watcher.Cycles.{allow_sync_to_config_map-own, is_polaris_config_map-written}
use polaris_controller.Tests.{sample_env, reviews_meta}

abbrev settings : FileInfo
settings = record {
  namespace = "default";
  group = some "shop";
  file_name = "settings.yaml";
  version = some 4;
  tags = record { key = "internal-sync-to-kubernetes"; value = "true" } ∷ [];
}

abbrev shop_files : Dict FileReference
shop_files = ("settings.yaml", record { revision = 3; info = settings }) ∷ []

abbrev shop : Dict (Dict FileReference)
shop = ("shop", shop_files) ∷ []

abbrev watcher : Watcher
watcher = record {
  namespaces = ("default", tt) ∷ [];
  need_sync_files = ("default", shop) ∷ [];
  files_revisions = [];
  groups = ("default", ("shop", tt) ∷ []) ∷ [];
  group_revisions = [];
  discovered = [];
  fetched = [];
  kube_calls = [];
}

abbrev shop_config : ConfigMap
shop_config = record { meta = reviews_meta; content = ("a", "b") ∷ [] }

own_file_is_refused :
    allow_sync_to_config_map sample_env.config.cluster_name (record {
      namespace = "default";
      group = some "shop";
      file_name = "a";
      version = some 1;
      tags =
          (parse_config_file_request
            (operation_config_map sample_env operation_add shop_config)).tags;
    })
    ≡ false
own_file_is_refused =
    allow_sync_to_config_map-own sample_env operation_add shop_config "default" "a" (some "shop")
      (some 1)

abbrev content : FileContent
content = record {
  namespace = "default";
  group = "shop";
  file_name = "a";
  content = "b";
  labels = [];
}

written_config_map_is_left : is_polaris_config_map sample_env (config_map_of content) ≡ false
written_config_map_is_left = is_polaris_config_map-written sample_env content

abbrev busy : Worker
busy = record new_worker { delay_queue = (1, delay_task 5 10) ∷ (2, tick_task 7 20) ∷ [] }

two_ticks_run_both :
    ((run_ticks (6 ∷ 8 ∷ []) busy).delay_queue ≡ not_due (6 ∷ 8 ∷ []) busy.delay_queue)
    × (count 20 (run_ticks (6 ∷ 8 ∷ []) busy).ran
        ≡ count_due 20 (6 ∷ 8 ∷ []) busy.delay_queue + count 20 busy.ran)
two_ticks_run_both = run_ticks-once (6 ∷ 8 ∷ []) busy 20

four_workers :
    (affinity_index 4 11 ≡ (if leb 2 4 then ok (11 % (4 - 1)) else panic))
    × (affinity_index 4 11 ≢ ok (4 - 1))
four_workers = affinity_index-lem 4 11 (omega arith)
