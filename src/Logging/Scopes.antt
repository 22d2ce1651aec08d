-- ===== src/Logging/Scopes.antt =====
-- common/log/scope.go, default.go and logger.go: named scopes, each with its levels and with what
-- Configure gave it to write to. A pointer to a scope is its name: a scope is never taken out of the
-- map `scopes`. zap's cores, and the formatting of fmt, are parameters; the time of an entry is left out.
pub mod Fatal
use Prim.Native.Char.{code}
use polaris_controller.Common.{
  ℕ, ◌+◌, String, ◌==◌, Bool, false, ◌||◌, eqb, if◌then◌else◌, Option, none, some, List, [], ◌∷◌,
}
use polaris_controller.Common.Dict.{Dict, lookup, insert}
use polaris_controller.Common.Outcome.{
  Error, Exec, pure, raise, crash, modify, gets, ◌>>=◌, ◌>>◌, unknown_logger, unknown_level,
}
use polaris_controller.Logging.Levels.{
  Level, none_level, fatal_level, error_level, warn_level, info_level, debug_level, at_least,
  default_logger_name, string_to_level,
}

-- The levels of zapcore that the methods log at.
pub data ZapLevel : Type 0 where
  debug info warn error fatal : ZapLevel

-- zapcore.Field: a key and the text of a value
abbrev pub Field : Type 0
Field = String × String

-- zapcore.Entry: where the caller is recorded, the frames that are skipped.
pub record Entry : Type 0 where
  pub message : String
  pub level : ZapLevel
  pub logger_name : String
  pub caller : Option ℕ
  pub stack : Bool

module _ (Core Sink : Type 0) where
  -- patchTable: `write` goes through the cores, and `exitProcess` is os.Exit.
  pub record PatchTable : Type 0 where
    pub cores : List Core
    pub error_sink : Sink

  pub record Scope : Type 0 where
    pub name : String
    pub name_to_emit : String
    pub description : String
    pub caller_skip : ℕ
    pub output_level : Level
    pub stack_trace_level : Level
    pub log_callers : Bool
    pub pt : Option PatchTable

  -- What logging does to the world, newest first.
  pub data Effect : Type 0 where
    wrote : Core → Entry → List Field → Effect
    reported : Sink → List Error → Effect

  -- The logger that Configure makes zap's global one, and Go's log package and gRPC write to.
  pub record Captured : Type 0 where
    pub core : Core
    pub error_output : Sink
    pub add_caller : Bool
    pub add_stacktrace : Option Level
    pub of_grpc : Bool

  -- The map `scopes`, what was logged, and the code that os.Exit was called with.
  pub record Log : Type 0 where
    pub scopes : Dict Scope
    pub effects : List Effect
    pub exited : Option ℕ
    pub captured : Option Captured

-- strings.ContainsAny(name, ":,.")
contains_separator : String → Bool
contains_separator String.[] = false
contains_separator (String.◌∷◌ c s) =
    eqb (code c) b':' || eqb (code c) b',' || eqb (code c) b'.' || contains_separator s

module _ {Core Sink : Type 0} where
  new_scope : String → String → ℕ → Scope Core Sink
  new_scope name description caller_skip = record {
    name = name;
    name_to_emit = if name == default_logger_name then "" else name;
    description = description;
    caller_skip = caller_skip;
    output_level = info_level;
    stack_trace_level = none_level;
    log_callers = false;
    pt = none;
  }

  store_scope : Scope Core Sink → Exec (Log Core Sink) (Unit {0})
  store_scope scope = modify (λ w. record w { scopes = insert scope.name scope w.scopes })

  -- FindScope
  unfoldable pub find_scope : String → Log Core Sink → Option (Scope Core Sink)
  find_scope name w = lookup name w.scopes

  register_missing :
      String → String → ℕ → Option (Scope Core Sink) → Exec (Log Core Sink) (Unit {0})
  register_missing name description caller_skip none =
      store_scope (new_scope name description caller_skip)
  register_missing name description caller_skip (some scope) = pure tt

  -- RegisterScope
  unfoldable pub register_scope : String → String → ℕ → Exec (Log Core Sink) (Unit {0})
  unfolding contains_separator new_scope store_scope register_missing find_scope
  register_scope name description caller_skip =
      if contains_separator name
      then crash
      else (gets (find_scope name) >>= register_missing name description caller_skip)

  -- The scopes of type.go and default.go, registered when the package is initialised.
  unfoldable pub register_scopes : Exec (Log Core Sink) (Unit {0})
  register_scopes =
      register_scope default_logger_name "Unscoped logging messages." 0
      >> (register_scope "inject" "pod inject logging messages." 0
          >> (register_scope "syncnaming" "naming sync logging messages." 0
              >> (register_scope "syncconfig" "config sync logging messages." 0
                  >> (register_scope "synccm" "configmap sync logging messages." 0
                      >> register_scope "trace" "trace logging messages." 0))))

  -- *scope with the panic of a nil pointer
  unfoldable pub deref : Option (Scope Core Sink) → Exec (Log Core Sink) (Scope Core Sink)
  deref none = crash
  deref (some scope) = pure scope

  -- A change of the scope behind a pointer.
  unfoldable pub update_scope :
      String → (Scope Core Sink → Scope Core Sink) → Exec (Log Core Sink) (Unit {0})
  unfolding deref find_scope
  update_scope name f = gets (find_scope name) >>= deref >>= λ scope.
      modify (λ w. record w { scopes = insert name (f scope) w.scopes })

  unfoldable pub set_scope_output_level : Level → Scope Core Sink → Scope Core Sink
  set_scope_output_level l scope = record scope { output_level = l }

  unfoldable pub set_scope_stack_trace_level : Level → Scope Core Sink → Scope Core Sink
  set_scope_stack_trace_level l scope = record scope { stack_trace_level = l }

  set_found_level : String → Option Level → Exec (Log Core Sink) (Unit {0})
  unfolding set_scope_output_level
  set_found_level name none = raise (unknown_level name)
  set_found_level name (some l) = update_scope name (set_scope_output_level l)

  set_level_of : String → String → Option (Scope Core Sink) → Exec (Log Core Sink) (Unit {0})
  set_level_of name level_name none = raise (unknown_logger name)
  set_level_of name level_name (some scope) = set_found_level name (string_to_level level_name)

  -- SetLogOutputLevel (logger.go)
  unfoldable pub set_log_output_level : String → String → Exec (Log Core Sink) (Unit {0})
  unfolding set_found_level set_level_of find_scope
  set_log_output_level name level_name = gets (find_scope name) >>= set_level_of name level_name

-- The level that a scope must have for a method to log.
unfoldable pub needed : ZapLevel → Level
needed debug = debug_level
needed info = info_level
needed warn = warn_level
needed error = error_level
needed fatal = fatal_level

-- The stack trace level from which a method of Scope (scope.go) adds a stack trace.
unfoldable pub scope_stack : ZapLevel → Level
scope_stack fatal = fatal_level
scope_stack _ = error_level

-- The same for the functions of default.go.
unfoldable pub default_stack : ZapLevel → Level
default_stack = needed

onto_error : Option Error → List Error → List Error
onto_error none errors = errors
onto_error (some e) errors = e ∷ errors

-- msg, with the arguments if there are any
formatted : (String → List String → String) → String → List String → String
formatted sprintf template [] = template
formatted sprintf template (a ∷ args) = sprintf template (a ∷ args)

module _ {Core Sink : Type 0} (core_enabled : Core → ZapLevel → Bool)
    (core_write : Core → Entry → List Field → Option Error) where
  record_write : Core → Entry → List Field → Exec (Log Core Sink) (Unit {0})
  record_write core e fields = modify (λ w. record w { effects = wrote core e fields ∷ w.effects })

  -- The loop of patchTable.write over the cores, with the errors that it collects.
  write_cores : List Core → Entry → List Field → Exec (Log Core Sink) (List Error)
  unfolding onto_error record_write
  write_cores [] e fields = pure []
  write_cores (core ∷ cores) e fields =
      (if core_enabled core e.level then record_write core e fields else pure tt)
      >> write_cores cores e fields
      >>= λ errors. pure (
          if core_enabled core e.level
          then onto_error (core_write core e fields) errors
          else errors)

  report : Sink → List Error → Exec (Log Core Sink) (Unit {0})
  report sink [] = pure tt
  report sink (e ∷ errors) =
      modify (λ w. record w { effects = reported sink (e ∷ errors) ∷ w.effects })

  -- os.Exit(1) ends the process: what follows it is not run.
  finish : ZapLevel → Sink → List Error → Exec (Log Core Sink) (Unit {0})
  unfolding report
  finish fatal sink errors = modify (λ w. record w { exited = some 1 })
  finish error sink errors = report sink errors
  finish warn sink errors = report sink errors
  finish info sink errors = report sink errors
  finish debug sink errors = report sink errors

  emit_through :
      Option (PatchTable Core Sink) → Entry → List Field → Exec (Log Core Sink) (Unit {0})
  emit_through none e fields = pure tt
  emit_through (some table) e fields =
      write_cores table.cores e fields >>= finish e.level table.error_sink

  -- Scope.emit
  unfoldable pub emit :
      Scope Core Sink → ZapLevel → Bool → String → List Field → Exec (Log Core Sink) (Unit {0})
  unfolding write_cores finish emit_through
  emit scope level dump_stack message fields =
      emit_through scope.pt
        (record {
          message = message;
          level = level;
          logger_name = scope.name_to_emit;
          caller = if scope.log_callers then some (scope.caller_skip + 2) else none;
          stack = dump_stack;
        })
        fields

  log_if :
      (ZapLevel → Level)
      → ZapLevel
      → String
      → List Field
      → Scope Core Sink
      → Exec (Log Core Sink) (Unit {0})
  log_if stack level message fields scope =
      if at_least (needed level) scope.output_level
      then emit scope level (at_least (stack level) scope.stack_trace_level) message fields
      else pure tt

  -- Scope.Fatal, Error, Warn, Info and Debug
  unfoldable pub log : ZapLevel → String → String → List Field → Exec (Log Core Sink) (Unit {0})
  unfolding log_if deref find_scope needed scope_stack
  log level name message fields =
      gets (find_scope name) >>= deref >>= log_if scope_stack level message fields

  -- Fatal, Error, Warn, Info and Debug of default.go
  unfoldable pub log_default : ZapLevel → String → List Field → Exec (Log Core Sink) (Unit {0})
  unfolding log_if deref find_scope needed default_stack
  log_default level message fields =
      gets (find_scope default_logger_name) >>= deref >>= log_if default_stack level message fields

module _ {Core Sink : Type 0} (core_enabled : Core → ZapLevel → Bool)
    (core_write : Core → Entry → List Field → Option Error)
    (sprintf : String → List String → String) (sprint : List String → String) where
  -- Fatala and the like
  unfoldable pub loga : ZapLevel → String → List String → Exec (Log Core Sink) (Unit {0})
  loga level name args = log core_enabled core_write level name (sprint args) []

  -- Fatalf and the like
  unfoldable pub logf : ZapLevel → String → String → List String → Exec (Log Core Sink) (Unit {0})
  unfolding formatted
  logf level name template args =
      log core_enabled core_write level name (formatted sprintf template args) []

  unfoldable pub loga_default : ZapLevel → List String → Exec (Log Core Sink) (Unit {0})
  loga_default level args = log_default core_enabled core_write level (sprint args) []

  unfoldable pub logf_default : ZapLevel → String → List String → Exec (Log Core Sink) (Unit {0})
  unfolding formatted
  logf_default level template args =
      log_default core_enabled core_write level (formatted sprintf template args) []
