-- ===== src/Tests/Manager.antt =====
-- The start of the controller at concrete inputs.
use mathlib.Core.List.{flatten}
use polaris_controller.Common.{
  List, ◌≤◌, String, ◌≡◌, ◌↔◌, refl, true, Option, none, some, [], ◌∷◌, length, All, if◌then◌else◌,
  arith,
}
use polaris_controller.Common.Int.{ℤ, pos, negsuc, int_ltb}
use polaris_controller.Common.Outcome.{Outcome, ok, panic}
use polaris_controller.Logging.Config.{configure}
use polaris_controller.Api.Split.{split_array}
use polaris_controller.Manager.Options.{PolarisConfiguration, apply_to}
use polaris_controller.Manager.Options.Batches.{split_array-apply_to}
use polaris_controller.Manager.Config.{ControllerConfig, Flags, init_controller_config}
use polaris_controller.Manager.Config.Required.{
  lacks, init_controller_config-panics_iff, init_controller_config-ignores,
}
use polaris_controller.Manager.Registration.{
  Provider, InstanceRegisterRequest, InstanceDeregisterRequest, IsSameInstance, register,
  deregister, register_controller, deregister_controller, register_controller-panics_iff,
  deregister_controller-register_controller,
}
use polaris_controller.Tests.Logging.{plain_url, same_dir, no_failure, opens, empty_log}

-- A file of the new layout, which gives no operator.
abbrev new_file : ControllerConfig
new_file = record {
  server_address = "polaris.polaris-system";
  polaris_access_token = "token";
  operator = "";
  cluster_name = "prod";
  service_sync = none;
  config_sync = none;
  sidecar_mode = "mesh";
  logger = [];
  health_check_duration = "1s";
  resync_duration = "1m";
}

abbrev flags : Flags
flags = record {
  inject_port = pos 9443;
  http_port = pos 8090;
  grpc_port = pos 8091;
  polaris_server_address = "";
}

abbrev options : PolarisConfiguration
options = record {
  cluster_name = "";
  concurrent_polaris_syncs = pos 5;
  size = negsuc 0;
  min_accounting_period = pos 0;
  sync_mode = "all";
  sidecar_mode = "dns";
  health_check_duration = pos 1000000000;
  resync_duration = pos 30000000000;
  config_sync = none;
}

abbrev read_yaml : String → Outcome ControllerConfig
read_yaml text = ok new_file

abbrev no_duration : String → Option ℤ
no_duration text = none

no_loggers : configure plain_url same_dir no_failure opens [] empty_log ≡ (ok tt, empty_log)
unfolding configure
no_loggers = refl

file_without_operator :
    ((init_controller_config plain_url same_dir no_failure opens read_yaml no_duration
        (ok "")
        flags
        options
        empty_log).0
      ≡ panic)
    ↔ ((new_file.service_sync ≡ none) × (lacks flags options new_file ≡ true))
file_without_operator =
    init_controller_config-panics_iff plain_url same_dir no_failure opens read_yaml no_duration ""
      flags options new_file empty_log empty_log refl no_loggers

mode_flag_is_ignored :
    init_controller_config plain_url same_dir no_failure opens read_yaml no_duration
      (ok "")
      flags
      (record options {
        sidecar_mode = "mesh";
        health_check_duration = pos 5000000000;
        resync_duration = pos 60000000000;
      })
      empty_log
    ≡ init_controller_config plain_url same_dir no_failure opens read_yaml no_duration
        (ok "")
        flags
        options
        empty_log
mode_flag_is_ignored =
    init_controller_config-ignores plain_url same_dir no_failure opens read_yaml no_duration (ok "")
      flags options "mesh" (pos 5000000000) (pos 60000000000) empty_log

abbrev applied : PolarisConfiguration
applied = record options { size = pos 250 }

abbrev two_names : List String
two_names = "10.0.0.7-80" ∷ "10.0.0.8-80" ∷ []

batches_of_250 :
    All
      (λ batch. length batch ≤ 100)
      (split_array 0 two_names (apply_to (some applied) options).size)
    × (flatten (split_array 0 two_names (apply_to (some applied) options).size)
        ≡ (if int_ltb (pos 0) applied.size then two_names else []))
batches_of_250 = split_array-apply_to 0 two_names applied options (ground arith)

abbrev unknown_pod : Provider
unknown_pod = record { pod_ip = ""; requests = [] }

dial_fails :
    ((register_controller none "token" "prod" (pos 80) unknown_pod).0 ≡ panic)
    ↔ ((unknown_pod.pod_ip ≡ "") × (◌≡◌ {A = Option String} none none))
dial_fails = register_controller-panics_iff none "token" "prod" (pos 80) unknown_pod

abbrev known_pod : Provider
known_pod = record unknown_pod { pod_ip = "10.0.0.7" }

dialed_pod :
    (r : InstanceRegisterRequest) × (d : InstanceDeregisterRequest) × (register_controller
        (some "10.0.0.7")
        "token"
        "prod"
        (pos 80)
        unknown_pod
      ≡ (ok tt, record { pod_ip = "10.0.0.7"; requests = register r ∷ [] }))
    × (deregister_controller (some "10.0.0.7") "token" "prod" (pos 80) known_pod
        ≡ (ok tt, record known_pod { requests = deregister d ∷ [] }))
    × IsSameInstance (some "10.0.0.7") "token" "prod" (pos 80) r d
    × (r.host ≡ "10.0.0.7")
    × (r.ttl ≡ some 5)
    × (r.auto_heartbeat ≡ true)
unfolding register_controller
dialed_pod =
    deregister_controller-register_controller (some "10.0.0.7") "token" "prod" (pos 80) unknown_pod
      known_pod "10.0.0.7" refl refl
