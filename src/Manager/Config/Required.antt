-- ===== src/Manager/Config/Required.antt =====
-- Which files and flags initControllerConfig starts with (polaris-controller-manager.go, config.go).
use polaris_controller.Common.{
  String, ◌≡◌, ◌↔◌, refl, ◌==◌, Bool, true, Option, none, some, List, arith, ◌&&◌, ◌||◌,
}
use polaris_controller.Common.Int.{ℤ}
use polaris_controller.Common.Outcome.{Error, Outcome, ok, panic, Exec}
use polaris_controller.Logging.Scopes.{Log}
use polaris_controller.Logging.Config.{Core, Sink, configure}
use polaris_controller.Manager.Options.{ServiceSync, PolarisConfiguration}
use polaris_controller.Manager.Config.{
  ControllerConfig, Flags, Started, old_field, new_or_old, or_local, chosen_address,
  chosen_sync_mode, get_polaris_server_address, get_polaris_access_token, get_polaris_operator,
  options_of, apply_config, read_conf_from_file, init_controller_config,
}

-- What only the section serviceSync could give: the flags and the new fields leave it open.
abbrev pub lacks : Flags → PolarisConfiguration → ControllerConfig → Bool
lacks flags o c =
    (flags.polaris_server_address == "" && c.server_address == "")
    || c.polaris_access_token == ""
    || c.operator == ""
    || o.sync_mode == ""

module _ (parse_duration : String → Option ℤ) (flags : Flags) (o : PolarisConfiguration)
    (c : ControllerConfig) (w : Log Core Sink) where
  old_fields :
      (service_sync : Option ServiceSync)
      → service_sync ≡ c.service_sync
      → ((apply_config parse_duration flags o c w).0 ≡ panic)
        ↔ ((c.service_sync ≡ none) × (lacks flags o c ≡ true))
  unfolding apply_config chosen_address chosen_sync_mode get_polaris_server_address
      get_polaris_access_token get_polaris_operator new_or_old old_field or_local
  old_fields none e = rw (← e) (ground arith)
  old_fields (some s) e = rw (← e) (ground arith)

module _ (parse_url : String → Option (String × String)) (dir : String → String)
    (mkdir_all : String → Option Error) (open_paths : List String → Option Error)
    (unmarshal : String → Outcome ControllerConfig) (parse_duration : String → Option ℤ) where
  abbrev init : Outcome String → Flags → PolarisConfiguration → Exec (Log Core Sink) Started
  init = init_controller_config parse_url dir mkdir_all open_paths unmarshal parse_duration

  -- For a file that is read and a log that is configured, initControllerConfig panics exactly if the file
  -- has no section serviceSync and the flags and the other fields leave one of the address, the token, the operator
  -- and the mode of synchronisation open.
  pub init_controller_config-panics_iff :
      (text : String) (flags : Flags) (o : PolarisConfiguration) (c : ControllerConfig)
      (w w' : Log Core Sink)
      → unmarshal text ≡ ok c
      → configure parse_url dir mkdir_all open_paths c.logger w ≡ (ok tt, w')
      → ((init (ok text) flags o w).0 ≡ panic)
        ↔ ((c.service_sync ≡ none) × (lacks flags o c ≡ true))
  unfolding init_controller_config read_conf_from_file
  init_controller_config-panics_iff text flags o c w w' e d =
      rw (e, d) (old_fields parse_duration flags o c w' c.service_sync refl)

  -- The flags sidecarinject-mode, healthcheck-duration and resync-duration have no effect, whatever the file says.
  pub init_controller_config-ignores :
      (file : Outcome String) (flags : Flags) (o : PolarisConfiguration) (sidecar_mode : String)
      (health_check_duration resync_duration : ℤ) (w : Log Core Sink)
      → init file flags
          (record o {
            sidecar_mode = sidecar_mode;
            health_check_duration = health_check_duration;
            resync_duration = resync_duration;
          })
          w
        ≡ init file flags o w
  unfolding init_controller_config apply_config chosen_sync_mode options_of
  init_controller_config-ignores file flags o sidecar_mode health_check_duration resync_duration w =
      refl
