-- ===== src/Tests.antt =====
-- Sample values, and the theorems at concrete inputs.
mod Tasks
mod Services
mod Instances
mod Files
mod Pods
mod Maps
mod Agent
mod Injection
mod Admission
mod Mesh
mod Logging
mod Manager
use polaris_controller.Common.{true, false, some, [], ◌∷◌}
use polaris_controller.Common.Int.{pos}
use polaris_controller.Kube.{ObjectMeta, Service, NamespaceObject, EndpointAddress, Endpoints}
use polaris_controller.Address.{SdkInstance}
use polaris_controller.Api.Types.{answered}
use polaris_controller.Api.Http.{Server}
use polaris_controller.Controller.Tasks.{Task, kubernetes_service, operation_add}
use polaris_controller.Controller.State.{
  Config, found, not_found, Env, Controller, new_polaris_controller,
}

abbrev pub sample_config : Config
sample_config = record {
  cluster_name = "cluster";
  sync_mode = "all";
  size = pos 2;
  config_sync_enable = true;
  sync_direction = "both";
  allow_delete = true;
  default_group = "";
}

abbrev pub reviews_meta : ObjectMeta
reviews_meta = record {
  namespace = "default";
  name = "reviews";
  labels = ("app", "reviews") ∷ [];
  annotations = ("polarismesh.cn/sync", "true") ∷ [];
}

abbrev pub reviews : Service
reviews = record {
  meta = reviews_meta;
  ports = 9080 ∷ [];
  selector = some (("app", "reviews") ∷ []);
}

abbrev pub reviews_namespace : NamespaceObject
reviews_namespace = record {
  meta = record { namespace = ""; name = "default"; labels = []; annotations = [] };
}

abbrev pub ready_address : EndpointAddress
ready_address = record {
  ip = "10.0.0.1";
  target_ref = some (record { namespace = "default"; name = "reviews-0" });
}

abbrev pub reviews_endpoints : Endpoints
reviews_endpoints = record {
  meta = reviews_meta;
  subsets =
      record {
        addresses = ready_address ∷ [];
        not_ready_addresses = [];
        ports = record { name = "http"; port = 9080; protocol = "TCP" } ∷ [];
      }
      ∷ [];
}

-- An instance that the controller registered before, of a pod that is gone.
abbrev pub old_instance : SdkInstance
old_instance = record {
  host = "10.0.0.9";
  port = 9080;
  weight = pos 100;
  protocol = "http/TCP";
  healthy = true;
  isolated = false;
  enable_health_check = false;
  metadata = some (("clusterName", "cluster") ∷ ("source", "polaris-controller") ∷ []);
}

-- A server that accepts everything.
abbrev pub willing_server : Server
willing_server _ _ =
    answered 200
      (some (record { code = 200000; responses = []; services = []; auth_token = "token" }))

abbrev pub sample_env : Env
sample_env = record {
  config = sample_config;
  access = record { operator = ""; access_token = "secret" };
  server = willing_server;
  services = λ _ _. found reviews;
  namespaces = λ _. some reviews_namespace;
  endpoints = λ _ _. found reviews_endpoints;
  config_maps = λ _ _. not_found;
  list_services = λ _. some (reviews ∷ []);
  list_config_maps = λ _. some [];
  pods = λ _ _. some (("app", "reviews") ∷ []);
  get_all_instances = λ _ _ _. some (old_instance ∷ []);
  decode_strings = λ _. (true, some []);
  int_of_inf = 0;
  decode_weights = λ _. [];
}

abbrev pub reviews_task : Task
reviews_task = record {
  namespace = "default";
  name = "reviews";
  rsync = false;
  object_type = kubernetes_service;
  operation = operation_add;
}

-- A controller that has seen the service.
abbrev pub seen : Controller
seen = record new_polaris_controller { service_cache = ("default|reviews|2", reviews) ∷ [] }
