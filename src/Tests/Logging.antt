-- ===== src/Tests/Logging.antt =====
-- Scopes at concrete inputs: after the initialisation of the package log.
use polaris_controller.Common.{
  String, ◌≡◌, ◌↔◌, refl, Bool, true, Option, none, some, List, [], ◌∷◌, length, ◌*◌, ◌/◌, arith,
}
use polaris_controller.Common.Dict.{lookup, insert}
use polaris_controller.Common.Outcome.{Error, ok}
use polaris_controller.Logging.Levels.{
  default_options, string_to_level, level_to_string, none_level,
}
use polaris_controller.Logging.Scopes.{
  ZapLevel, fatal, Entry, Field, Scope, Log, find_scope, deref, register_scope, register_scopes,
  update_scope, log, set_scope_output_level, set_scope_stack_trace_level,
}
use polaris_controller.Logging.Scopes.Fatal.{IsFatal, log-exits_iff}
use polaris_controller.Logging.Config.{
  Core, Sink, create_path_if_not_exist, prep_zap, update_scopes, set_default_option, configure,
}
use polaris_controller.Logging.Config.Configured.{HasKeysOnce, Left, configure-Left}
use polaris_controller.Logging.Dates.{Date, format_date, read_date, read_date-format_date}

abbrev pub plain_url : String → Option (String × String)
plain_url path = some ("", path)

abbrev pub same_dir : String → String
same_dir path = path

abbrev pub no_failure : String → Option Error
no_failure path = none

abbrev pub opens : List String → Option Error
opens paths = none

abbrev pub empty_log : Log Core Sink
empty_log = record { scopes = []; effects = []; exited = none; captured = none }

abbrev registered : Log Core Sink
registered = (register_scopes empty_log).1

abbrev configured : Log Core Sink
configured = (configure plain_url same_dir no_failure opens default_options registered).1

configured_ok :
    configure plain_url same_dir no_failure opens default_options registered ≡ (ok tt, configured)
unfolding configure prep_zap create_path_if_not_exist update_scopes update_scope default_options
    register_scopes register_scope find_scope deref lookup insert set_scope_output_level
    set_scope_stack_trace_level string_to_level level_to_string set_default_option
configured_ok = refl

default_options-HasKeysOnce : HasKeysOnce default_options
unfolding default_options lookup insert
default_options-HasKeysOnce = (refl, (refl, (refl, (refl, (refl, tt)))))

-- After the start of the package the scope "inject" is configured, and "trace", which has no entry, is not.
inject_is_configured :
    Left
      (prep_zap plain_url same_dir no_failure opens)
      (lookup "inject" default_options)
      (find_scope "inject" registered)
      (find_scope "inject" configured)
inject_is_configured =
    configure-Left plain_url same_dir no_failure opens default_options registered configured
      default_options-HasKeysOnce configured_ok "inject"

trace_is_as_before : find_scope "trace" configured ≡ find_scope "trace" registered
unfolding default_options lookup insert
trace_is_as_before =
    configure-Left plain_url same_dir no_failure opens default_options registered configured
      default_options-HasKeysOnce configured_ok "trace"

abbrev silent_scope : Scope Core Sink
silent_scope = record {
  name = "default";
  name_to_emit = "";
  description = "Unscoped logging messages.";
  caller_skip = 0;
  output_level = none_level;
  stack_trace_level = none_level;
  log_callers = true;
  pt = none;
}

abbrev silent : Log Core Sink
silent = record empty_log { scopes = ("default", silent_scope) ∷ [] }

abbrev always : Core → ZapLevel → Bool
always core level = true

abbrev never_fails : Core → Entry → List Field → Option Error
never_fails core e fields = none

silent_found : find_scope "default" silent ≡ some silent_scope
unfolding find_scope lookup
silent_found = refl

-- A fatal error of a silent scope does not end the process.
silent_scope_goes_on :
    ((log always never_fails fatal "default" "error starting controllers" [] silent).0 ≡ ok tt)
    × ((log always never_fails fatal "default" "error starting controllers" [] silent).1.scopes
        ≡ silent.scopes)
    × (((log always never_fails fatal "default" "error starting controllers" [] silent).1.exited
          ≡ some 1)
        ↔ IsFatal fatal silent_scope)
silent_scope_goes_on =
    log-exits_iff always never_fails fatal "default" "error starting controllers" [] silent_scope
      silent silent_found refl

abbrev noon : Date
noon = record {
  year = 2023;
  month = 11;
  day = 5;
  hour = 12;
  minute = 0;
  second = 59;
  nanosecond = 7654321;
}

noon_is_read :
    (length (format_date noon) ≡ 27)
    × (read_date (format_date noon) ≡ record noon { nanosecond = noon.nanosecond / 1000 * 1000 })
noon_is_read = read_date-format_date noon (record {
  of_year = omega arith;
  of_month = omega arith;
  of_day = omega arith;
  of_hour = omega arith;
  of_minute = omega arith;
  of_second = omega arith;
  of_nanosecond = omega arith;
})
