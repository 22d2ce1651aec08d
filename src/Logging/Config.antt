-- ===== src/Logging/Config.antt =====
-- common/log/config.go: the cores and sinks made of a logger's options, and Configure. The file system,
-- net/url and zap.Open are parameters; a core and a sink are what zapcore.NewCore and the constructors of
-- sinks are called with.
mod Updates
pub mod Configured
use polaris_controller.Common.{
  String, ◌==◌, Bool, true, ◌&&◌, ◌||◌, not, if◌then◌else◌, Option, none, some, List, [], ◌∷◌,
}
use polaris_controller.Common.Dict.{Dict}
use polaris_controller.Common.Int.{ℤ, pos, int_eq}
use polaris_controller.Common.Outcome.{
  Error, Outcome, ok, err, panic, Exec, pure, raise, crash, lift, modify, gets, ◌>>=◌, ◌>>◌, when,
  of_error, unknown_logger, unknown_level, bad_path,
}
use polaris_controller.Logging.Levels.{
  Level, none_level, Options, default_logger_name, default_output_level, default_stack_trace_level,
  string_to_level, level_to_string,
}
use polaris_controller.Logging.Scopes.{
  ZapLevel, debug, error, Scope, PatchTable, Captured, Log, find_scope, deref, update_scope,
  set_scope_output_level, set_scope_stack_trace_level,
}

pub data Sink : Type 0 where
  stdout : Sink
  opened : List String → Sink
  rotating : String → ℤ → ℤ → ℤ → Sink
  multi : Sink → Sink → Sink

-- zap.NewAtomicLevelAt(level), or the function `enabler`, which asks the default scope.
pub data Enabler : Type 0 where
  from_level : ZapLevel → Enabler
  of_default_scope : Enabler

pub record Core : Type 0 where
  pub json : Bool
  pub sink : Sink
  pub enabler : Enabler

pub record Prepared : Type 0 where
  pub cores : List Core
  pub capture_core : Core
  pub err_sink : Sink

rotated : String → Options → Option Sink
rotated path o =
    if path == ""
    then none
    else some (rotating path o.rotation_max_size o.rotation_max_backups o.rotation_max_age)

either_sink : Option Sink → Option Sink → Sink
either_sink (some output) (some rotate) = multi output rotate
either_sink none (some rotate) = rotate
either_sink (some output) none = output
either_sink none none = stdout

error_core : Bool → Option Sink → List Core
error_core json none = []
error_core json (some sink) = record { json = json; sink = sink; enabler = from_level error } ∷ []

or_default : String → String → String
or_default text name = if name == "" then text else name

or_number : ℤ → ℤ → ℤ
or_number n m = if int_eq m (pos 0) then n else m

-- setDefaultOption
unfoldable pub set_default_option : Options → Options
unfolding or_default or_number level_to_string
set_default_option o = record o {
  rotation_max_size = or_number (pos 100) o.rotation_max_size;
  rotation_max_age = or_number (pos 7) o.rotation_max_age;
  rotation_max_backups = or_number (pos 10) o.rotation_max_backups;
  output_level = or_default (level_to_string default_output_level) o.output_level;
  stack_trace_level = or_default (level_to_string default_stack_trace_level) o.stack_trace_level;
  log_caller = true;
}

known_level : Option Level → String → Outcome Level
known_level none name = err (unknown_level name)
known_level (some l) name = ok l

unfoldable pub set_log_callers : Bool → Scope Core Sink → Scope Core Sink
set_log_callers log_callers scope = record scope { log_callers = log_callers }

unfoldable pub set_table : PatchTable Core Sink → Scope Core Sink → Scope Core Sink
set_table table scope = record scope { pt = some table }

update_levels :
    String → Options → List Core → Sink → Option (Scope Core Sink) → Exec (Log Core Sink) (Unit {0})
unfolding known_level set_log_callers set_table set_scope_output_level set_scope_stack_trace_level
update_levels name o cores err_sink none = raise (unknown_logger name)
update_levels name o cores err_sink (some scope) =
    lift (known_level (string_to_level o.output_level) o.output_level) >>= λ output.
    update_scope name (set_scope_output_level output)
    >> (lift (known_level (string_to_level o.stack_trace_level) o.stack_trace_level) >>= λ trace.
        update_scope name (set_scope_stack_trace_level trace)
        >> (update_scope name (set_table (record { cores = cores; error_sink = err_sink }))
            >> update_scope name (set_log_callers o.log_caller)))

-- updateScopes
unfoldable pub update_scopes : String → Options → List Core → Sink → Exec (Log Core Sink) (Unit {0})
unfolding update_levels find_scope
update_scopes name o cores err_sink = gets (find_scope name) >>= update_levels name o cores err_sink

stack_option : Level → Option Level
stack_option none_level = none
stack_option l = some l

captured_of : Options → Prepared → Scope Core Sink → Captured Core Sink
unfolding stack_option
captured_of o p scope = record {
  core = p.capture_core;
  error_output = p.err_sink;
  add_caller = scope.log_callers;
  add_stacktrace = stack_option scope.stack_trace_level;
  of_grpc = o.log_grpc;
}

-- What Configure does for the default logger alone.
capture : Options → Prepared → Exec (Log Core Sink) (Unit {0})
unfolding captured_of find_scope deref
capture o p = gets (find_scope default_logger_name) >>= deref >>= λ scope.
    modify (λ w. record w { captured = some (captured_of o p scope) })

create_first : Outcome (Unit {0}) → Outcome (Unit {0}) → Outcome (Unit {0})
create_first (ok _) later = later
create_first (err e) later = err e
create_first panic later = panic

then_prepared : Outcome (Unit {0}) → Prepared → Outcome Prepared
then_prepared (ok _) p = ok p
then_prepared (err e) p = err e
then_prepared panic p = panic

output_sink : List String → Option Sink
output_sink [] = none
output_sink (path ∷ paths) = some (opened (path ∷ paths))

prepared : Options → Prepared
unfolding rotated either_sink error_core output_sink
prepared o =
    let sink = either_sink (output_sink o.output_paths) (rotated o.rotate_output_path o) in
    record {
      cores =
          record { json = o.json_encoding; sink = sink; enabler = from_level debug }
          ∷ error_core o.json_encoding (rotated o.error_rotate_output_path o);
      capture_core = record { json = o.json_encoding; sink = sink; enabler = of_default_scope };
      err_sink = opened o.error_output_paths;
    }

-- `parse_url` gives the scheme and the path of a URL, `dir` is filepath.Dir, and `mkdir_all` and `open` say
-- whether os.MkdirAll and zap.Open fail.
module _ (parse_url : String → Option (String × String)) (dir : String → String)
    (mkdir_all : String → Option Error) (open_paths : List String → Option Error) where
  made : String → Option Error → Outcome (Unit {0})
  made path none = ok tt
  made path (some e) = err (bad_path path)

  create_parent : String → Option (String × String) → Outcome (Unit {0})
  unfolding made
  create_parent path none = err (bad_path path)
  create_parent path (some (scheme, p)) =
      if (scheme == "" || scheme == "file") && not (p == "stdout") && not (p == "stderr")
      then made (dir p) (mkdir_all (dir p))
      else ok tt

  -- createPathIfNotExist
  unfoldable pub create_path_if_not_exist : List String → Outcome (Unit {0})
  unfolding create_parent create_first
  create_path_if_not_exist [] = ok tt
  create_path_if_not_exist (path ∷ paths) =
      create_first (create_parent path (parse_url path)) (create_path_if_not_exist paths)

  open_all : List String → Outcome (Unit {0})
  unfolding create_first
  open_all paths = create_first (create_path_if_not_exist paths) (of_error (open_paths paths))

  open_output : List String → Outcome (Unit {0})
  unfolding open_all
  open_output [] = ok tt
  open_output (path ∷ paths) = open_all (path ∷ paths)

  -- prepZap
  unfoldable pub prep_zap : Options → Outcome Prepared
  unfolding open_all open_output prepared then_prepared
  prep_zap o =
      then_prepared (create_first (open_all o.error_output_paths) (open_output o.output_paths))
        (prepared o)

  configure_one : String → Option Options → Exec (Log Core Sink) (Unit {0})
  unfolding capture
  configure_one name none = crash
  configure_one name (some o) = lift (prep_zap (set_default_option o)) >>= λ p.
      update_scopes name (set_default_option o) p.cores p.err_sink
      >> when (name == default_logger_name) (capture (set_default_option o) p)

  -- Configure; the order of the entries is the one in which range visits the map.
  unfoldable pub configure : Dict (Option Options) → Exec (Log Core Sink) (Unit {0})
  unfolding configure_one
  configure [] = pure tt
  configure (entry ∷ entries) = configure_one entry.0 entry.1 >> configure entries
