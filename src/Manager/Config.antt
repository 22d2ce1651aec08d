-- ===== src/Manager/Config.antt =====
-- cmd/polaris-controller/app: config.go, the file of the controller, and initControllerConfig of
-- polaris-controller-manager.go, which sets the controller's options and the addresses of Polaris from the
-- file and the flags. The reading of the file, YAML and time.ParseDuration are parameters.
pub mod Required
use polaris_controller.Common.{suc, String, ◌==◌, if◌then◌else◌, Option, none, some, List}
use polaris_controller.Common.Dict.{Dict}
use polaris_controller.Common.Int.{ℤ, pos, negsuc}
use polaris_controller.Common.Outcome.{
  Error, Outcome, ok, err, panic, Exec, pure, lift, ◌>>=◌, ◌>>◌,
}
use polaris_controller.Util.Text.{◌⋯◌, itoa}
use polaris_controller.Util.Split.{trim_space}
use polaris_controller.Logging.Levels.{Options}
use polaris_controller.Logging.Scopes.{Log}
use polaris_controller.Logging.Config.{Core, Sink, configure}
use polaris_controller.Manager.Options.{ServiceSync, ConfigSync, PolarisConfiguration}

-- controllerConfig, less what nothing reads (ignorePods and the proxy's metadata).
pub record ControllerConfig : Type 0 where
  pub server_address : String
  pub polaris_access_token : String
  pub operator : String
  pub cluster_name : String
  pub service_sync : Option ServiceSync
  pub config_sync : Option ConfigSync
  pub sidecar_mode : String
  pub logger : Dict (Option Options)
  pub health_check_duration : String
  pub resync_duration : String

pub record Flags : Type 0 where
  pub inject_port : ℤ
  pub http_port : ℤ
  pub grpc_port : ℤ
  pub polaris_server_address : String

-- The variables of pkg/polarisapi and common that are set at the start.
pub record Addresses : Type 0 where
  pub polaris_http_url : String
  pub polaris_grpc : String
  pub polaris_config_grpc : String
  pub polaris_access_token : String
  pub polaris_operator : String
  pub polaris_server_address : String

pub record Started : Type 0 where
  pub addresses : Addresses
  pub options : PolarisConfiguration

-- A field of the section serviceSync, with the panic of a nil pointer.
old_field : (ServiceSync → String) → Option ServiceSync → Outcome String
old_field f none = panic
old_field f (some s) = ok (f s)

-- The new field, or the old one.
new_or_old : String → (ServiceSync → String) → Option ServiceSync → Outcome String
unfolding old_field
new_or_old new f s = if new == "" then old_field f s else ok new

or_local : Outcome String → Outcome String
or_local (ok address) = ok (if address == "" then "127.0.0.1" else address)
or_local (err e) = err e
or_local panic = panic

-- getPolarisServerAddress
unfoldable pub get_polaris_server_address : ControllerConfig → Outcome String
unfolding new_or_old or_local
get_polaris_server_address c =
    or_local (new_or_old c.server_address ServiceSync.server_address c.service_sync)

-- getPolarisAccessToken
unfoldable pub get_polaris_access_token : ControllerConfig → Outcome String
unfolding new_or_old
get_polaris_access_token c =
    new_or_old c.polaris_access_token ServiceSync.polaris_access_token c.service_sync

-- getPolarisOperator
unfoldable pub get_polaris_operator : ControllerConfig → Outcome String
unfolding new_or_old
get_polaris_operator c = new_or_old c.operator ServiceSync.operator c.service_sync

-- strconv.Itoa of an int
itoa_int : ℤ → String
itoa_int (pos n) = itoa n
itoa_int (negsuc n) = "-" ⋯ itoa (suc n)

-- The address of Polaris: the flag before the file.
chosen_address : Flags → ControllerConfig → Outcome String
chosen_address flags c =
    if flags.polaris_server_address == ""
    then get_polaris_server_address c
    else ok flags.polaris_server_address

chosen_sync_mode : PolarisConfiguration → ControllerConfig → Outcome String
unfolding new_or_old
chosen_sync_mode o c = new_or_old o.sync_mode ServiceSync.mode c.service_sync

addresses_of : Flags → String → String → String → Addresses
unfolding itoa_int
addresses_of flags address token operator = record {
  polaris_http_url = "http://" ⋯ (address ⋯ (":" ⋯ itoa_int flags.http_port));
  polaris_grpc = address ⋯ (":" ⋯ itoa_int flags.grpc_port);
  polaris_config_grpc = address ⋯ ":8093";
  polaris_access_token = token;
  polaris_operator = operator;
  polaris_server_address = address;
}

-- The result of a duration that cannot be read is 0; its error is dropped.
or_zero : Option ℤ → ℤ
or_zero none = pos 0
or_zero (some d) = d

module _ (parse_duration : String → Option ℤ) where
  options_of : PolarisConfiguration → ControllerConfig → String → PolarisConfiguration
  unfolding or_zero
  options_of o c sync_mode = record o {
    sync_mode = sync_mode;
    cluster_name = if o.cluster_name == "" then c.cluster_name else o.cluster_name;
    sidecar_mode = c.sidecar_mode;
    config_sync = c.config_sync;
    health_check_duration = or_zero (parse_duration c.health_check_duration);
    resync_duration = or_zero (parse_duration c.resync_duration);
  }

  -- What follows the configuration of the log.
  unfoldable pub apply_config :
      Flags → PolarisConfiguration → ControllerConfig → Exec (Log Core Sink) Started
  unfolding chosen_address chosen_sync_mode addresses_of options_of
  apply_config flags o c = lift (chosen_address flags c) >>= λ address.
      lift (get_polaris_access_token c) >>= λ token. lift (get_polaris_operator c) >>= λ operator.
      lift (chosen_sync_mode o c) >>= λ sync_mode. pure (record {
        addresses = addresses_of flags (trim_space address) token operator;
        options = options_of o c sync_mode;
      })

-- readConfFromFile: the file that os.ReadFile returns, read by yaml.Unmarshal.
unfoldable pub read_conf_from_file :
    (String → Outcome ControllerConfig) → Outcome String → Outcome ControllerConfig
read_conf_from_file unmarshal (ok text) = unmarshal text
read_conf_from_file unmarshal (err e) = err e
read_conf_from_file unmarshal panic = panic

module _ (parse_url : String → Option (String × String)) (dir : String → String)
    (mkdir_all : String → Option Error) (open_paths : List String → Option Error)
    (unmarshal : String → Outcome ControllerConfig) (parse_duration : String → Option ℤ) where
  -- initControllerConfig; an error ends the process with status 1.
  unfoldable pub init_controller_config :
      Outcome String → Flags → PolarisConfiguration → Exec (Log Core Sink) Started
  init_controller_config file flags o = lift (read_conf_from_file unmarshal file) >>= λ c.
      configure parse_url dir mkdir_all open_paths c.logger >> apply_config parse_duration flags o c
