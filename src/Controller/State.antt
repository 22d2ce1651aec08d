-- ===== src/Controller/State.antt =====
-- pkg/controller/controller.go: what the controller keeps, its configuration, and the parts of the
-- cluster and of the Polaris SDK that it reads.
use polaris_controller.Common.{ℕ, String, Bool, true, ◌&&◌, ◌||◌, ◌==◌, Option, List, [], ◌∷◌}
use polaris_controller.Common.Dict.{Dict}
use polaris_controller.Common.Int.{ℤ}
use polaris_controller.Common.Outcome.{Exec}
use polaris_controller.Kube.{Service, NamespaceObject, ConfigMap, Endpoints}
use polaris_controller.Util.Names.{
  sync_direction_both, sync_direction_kubernetes_to_polaris, sync_direction_polaris_to_kubernetes,
}
use polaris_controller.Address.{SdkInstance, PodLister}
use polaris_controller.Api.Types.{Sent}
use polaris_controller.Api.Http.{Server, Access, Io}
use polaris_controller.Controller.Tasks.{Task}

-- The fields of PolarisControllerConfiguration that the controller reads.
pub record Config : Type 0 where
  pub cluster_name : String
  pub sync_mode : String
  pub size : ℤ
  pub config_sync_enable : Bool
  pub sync_direction : String
  pub allow_delete : Bool
  pub default_group : String

unfoldable pub allow_sync_from_config_map : Config → Bool
allow_sync_from_config_map c =
    c.config_sync_enable
    && (c.sync_direction == sync_direction_kubernetes_to_polaris
        || c.sync_direction == sync_direction_both)

unfoldable pub allow_sync_to_config_map : Config → Bool
allow_sync_to_config_map c =
    c.config_sync_enable
    && (c.sync_direction == sync_direction_polaris_to_kubernetes
        || c.sync_direction == sync_direction_both)

-- What a lister's Get returns: errors.IsNotFound is one of its errors.
pub data Fetch (A : Type 0) : Type 0 where
  found : A → Fetch A
  not_found : Fetch A
  failed : ℕ → Fetch A

-- The configuration, the informers' listers as they stand while one handler runs, the SDK, the
-- server, and the decoders of encoding/json for annotation values. `decode_strings` says whether
-- json.Unmarshal succeeds, and what it leaves of a map in either case: `none`, a nil map, of the text
-- null. `int_of_inf` is what the platform makes of a conversion (Api.Split).
pub record Env : Type 0 where
  pub config : Config
  pub access : Access
  pub server : Server
  pub services : String → String → Fetch Service
  pub namespaces : String → Option NamespaceObject
  pub endpoints : String → String → Fetch Endpoints
  pub config_maps : String → String → Fetch ConfigMap
  pub list_services : String → Option (List Service)
  pub list_config_maps : String → Option (List ConfigMap)
  pub pods : PodLister
  pub get_all_instances : List Sent → String → String → Option (List SdkInstance)
  pub decode_strings : String → Bool × Option (Dict String)
  pub decode_weights : String → Dict ℤ
  pub int_of_inf : ℕ

-- `added` are the tasks handed to the queue's Add, and `sent` the requests to the server, each
-- newest first.
pub record Controller : Type 0 where
  pub sent : List Sent
  pub added : List Task
  pub service_cache : Dict Service
  pub resync_service_cache : Dict Service
  pub config_file_cache : Dict ConfigMap
  pub resync_config_file_cache : Dict ConfigMap
  pub is_polaris_server_healthy : Bool
  pub polaris_server_failed_times : ℕ

-- NewPolarisController
abbrev pub new_polaris_controller : Controller
new_polaris_controller = record {
  sent = [];
  added = [];
  service_cache = [];
  resync_service_cache = [];
  config_file_cache = [];
  resync_config_file_cache = [];
  is_polaris_server_healthy = true;
  polaris_server_failed_times = 0;
}

abbrev pub M : Type 0 → Type 0
M A = Exec Controller A

-- A call of pkg/polarisapi.
abbrev pub api : {A : Type 0} → Io A → M A
api m p = let (r, sent) = m p.sent in (r, record p { sent = sent })

-- insertTask, and with it enqueueService, enqueueEndpoint, enqueueNamespace and enqueueConfigMap,
-- which only log and count metrics beside it.
unfoldable pub insert_task : Task → Controller → Controller
insert_task t p = record p { added = t ∷ p.added }
