-- ===== src/Manager/Options.antt =====
-- cmd/polaris-controller/app/options: the options of the controller. A duration is its nanoseconds.
pub mod Batches
use polaris_controller.Common.{String, Bool, Option, none, some, List, if◌then◌else◌}
use polaris_controller.Common.Int.{ℤ, pos, int_ltb}

-- The section serviceSync of the file (polaris.go)
pub record ServiceSync : Type 0 where
  pub mode : String
  pub server_address : String
  pub polaris_access_token : String
  pub operator : String
  pub enable : Bool

pub record ConfigSync : Type 0 where
  pub mode : String
  pub allow_delete : Bool
  pub sync_direction : String
  pub enable : Bool
  pub ignore_namespaces : List String
  pub default_group : String

-- PolarisControllerConfiguration; a missing section configSync is a nil pointer.
pub record PolarisConfiguration : Type 0 where
  pub cluster_name : String
  pub concurrent_polaris_syncs : ℤ
  pub size : ℤ
  pub min_accounting_period : ℤ
  pub sync_mode : String
  pub sidecar_mode : String
  pub health_check_duration : ℤ
  pub resync_duration : ℤ
  pub config_sync : Option ConfigSync

-- AddFlags: registering a flag sets its variable to the flag's default.
unfoldable pub add_flags : PolarisConfiguration → PolarisConfiguration
add_flags o = record o {
  cluster_name = "";
  concurrent_polaris_syncs = pos 5;
  size = pos 100;
  sync_mode = "";
  sidecar_mode = "";
  health_check_duration = pos 1000000000;
  resync_duration = pos 30000000000;
}

at_most_100 : ℤ → ℤ
at_most_100 size = if int_ltb (pos 100) size then pos 100 else size

-- ApplyTo, of options that may be a nil pointer; it returns no error.
unfoldable pub apply_to : Option PolarisConfiguration → PolarisConfiguration → PolarisConfiguration
unfolding at_most_100
apply_to none cfg = cfg
apply_to (some o) cfg = record {
  cluster_name = o.cluster_name;
  concurrent_polaris_syncs = o.concurrent_polaris_syncs;
  size = at_most_100 o.size;
  min_accounting_period = o.min_accounting_period;
  sync_mode = o.sync_mode;
  sidecar_mode = o.sidecar_mode;
  health_check_duration = o.health_check_duration;
  resync_duration = o.resync_duration;
  config_sync = o.config_sync;
}
