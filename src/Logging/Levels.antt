-- ===== src/Logging/Levels.antt =====
-- common/log/options.go: the levels and their names, and the options of a logger.
use polaris_controller.Common.{
  ℕ, String, ◌≡◌, refl, Bool, false, leb, Option, none, some, List, [], ◌∷◌,
}
use polaris_controller.Common.Dict.{Dict, lookup, insert}
use polaris_controller.Common.Int.{ℤ, pos}
use polaris_controller.Common.Outcome.{Exec, raise, modify, unknown_level}

pub data Level : Type 0 where
  none_level fatal_level error_level warn_level info_level debug_level : Level

-- The number of a level.
abbrev pub rank : Level → ℕ
rank none_level = 0
rank fatal_level = 1
rank error_level = 2
rank warn_level = 3
rank info_level = 4
rank debug_level = 5

-- l >= m
abbrev pub at_least : Level → Level → Bool
at_least m l = leb (rank m) (rank l)

-- levelToString, which has every level, and Level.Name
unfoldable pub level_to_string : Level → String
level_to_string none_level = "none"
level_to_string fatal_level = "fatal"
level_to_string error_level = "error"
level_to_string warn_level = "warn"
level_to_string info_level = "info"
level_to_string debug_level = "debug"

level_names : Dict Level
level_names =
    ("debug", debug_level)
    ∷ ("info", info_level)
    ∷ ("warn", warn_level)
    ∷ ("error", error_level)
    ∷ ("fatal", fatal_level)
    ∷ ("none", none_level)
    ∷ []

unfoldable pub string_to_level : String → Option Level
unfolding level_names lookup
string_to_level name = lookup name level_names

-- The level of a missing key is the zero value.
or_none_level : Option Level → Level
or_none_level none = none_level
or_none_level (some l) = l

pub record Options : Type 0 where
  pub output_paths : List String
  pub error_output_paths : List String
  pub rotate_output_path : String
  pub error_rotate_output_path : String
  pub rotation_max_size : ℤ
  pub rotation_max_age : ℤ
  pub rotation_max_backups : ℤ
  pub json_encoding : Bool
  pub log_grpc : Bool
  pub output_level : String
  pub stack_trace_level : String
  pub log_caller : Bool

abbrev pub default_logger_name : String
default_logger_name = "default"

abbrev pub default_output_level : Level
default_output_level = info_level

abbrev pub default_stack_trace_level : Level
default_stack_trace_level = none_level

abbrev pub all_logger_types : List String
all_logger_types = "syncnaming" ∷ "syncconfig" ∷ "synccm" ∷ "inject" ∷ default_logger_name ∷ []

default_logger_options : Options
unfolding level_to_string
default_logger_options = record {
  output_paths = "stdout" ∷ [];
  error_output_paths = "stderr" ∷ [];
  rotate_output_path = "";
  error_rotate_output_path = "";
  rotation_max_size = pos 100;
  rotation_max_age = pos 7;
  rotation_max_backups = pos 10;
  json_encoding = false;
  log_grpc = false;
  output_level = level_to_string default_output_level;
  stack_trace_level = level_to_string default_stack_trace_level;
  log_caller = false;
}

with_defaults : List String → Dict (Option Options)
unfolding default_logger_options
with_defaults [] = []
with_defaults (name ∷ names) = insert name (some default_logger_options) (with_defaults names)

-- DefaultOptions; a value of the map is a pointer, which a file's map may leave nil.
unfoldable pub default_options : Dict (Option Options)
unfolding with_defaults
default_options = with_defaults all_logger_types

set_known_output_level : String → Option Level → Exec Options (Unit {0})
set_known_output_level level none = raise (unknown_level level)
set_known_output_level level (some l) = modify (λ o. record o { output_level = level })

-- Options.SetOutputLevel
unfoldable pub set_output_level : String → Exec Options (Unit {0})
unfolding set_known_output_level
set_output_level level = set_known_output_level level (string_to_level level)

-- Options.GetOutputLevel
unfoldable pub get_output_level : Options → Level
unfolding or_none_level
get_output_level o = or_none_level (string_to_level o.output_level)

set_known_stack_trace_level : String → Option Level → Exec Options (Unit {0})
set_known_stack_trace_level level none = raise (unknown_level level)
set_known_stack_trace_level level (some l) = modify (λ o. record o { stack_trace_level = level })

-- Options.SetStackTraceLevel
unfoldable pub set_stack_trace_level : String → Exec Options (Unit {0})
unfolding set_known_stack_trace_level
set_stack_trace_level level = set_known_stack_trace_level level (string_to_level level)

-- Options.GetStackTraceLevel
unfoldable pub get_stack_trace_level : Options → Level
unfolding or_none_level
get_stack_trace_level o = or_none_level (string_to_level o.stack_trace_level)

-- A level is found by its name.
pub string_to_level-level_to_string : (l : Level) → string_to_level (level_to_string l) ≡ some l
unfolding string_to_level level_to_string
string_to_level-level_to_string none_level = refl
string_to_level-level_to_string fatal_level = refl
string_to_level-level_to_string error_level = refl
string_to_level-level_to_string warn_level = refl
string_to_level-level_to_string info_level = refl
string_to_level-level_to_string debug_level = refl
