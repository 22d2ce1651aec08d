-- ===== src/Logging/Scopes/Fatal.antt =====
-- When a call of the log ends the process (common/log/scope.go).
use polaris_controller.Common.{
  ℕ, String, ◌≡◌, ◌≢◌, ◌↔◌, refl, sym, ap, ◌∙◌, Bool, true, false, Bool-cases, inl, inr,
  if◌then◌else◌, Option, none, some, List, [], ◌∷◌, arith,
}
use polaris_controller.Common.Outcome.{Error, ok, Exec, pure, continue, ◌>>=◌, ◌>>◌}
use polaris_controller.Logging.Levels.{Level, none_level, at_least}
use polaris_controller.Logging.Scopes.{
  ZapLevel, debug, info, warn, error, fatal, Field, Entry, PatchTable, Scope, Log, find_scope,
  deref, needed, scope_stack, onto_error, write_cores, report, record_write, finish, emit_through,
  emit, log_if, log,
}

-- Whether a call at `level` on this scope is one that ends the process.
pub record IsFatal {Core Sink : Type 0} (level : ZapLevel) (scope : Scope Core Sink) : Type 0 where
  pub at_fatal : level ≡ fatal
  pub enabled : scope.output_level ≢ none_level
  pub configured : scope.pt ≢ none

-- The exit code after the last step of emit.
abbrev code_after : ZapLevel → Option ℕ → Option ℕ
code_after fatal x = some 1
code_after _ x = x

module _ {Core Sink : Type 0} (core_enabled : Core → ZapLevel → Bool)
    (core_write : Core → Entry → List Field → Option Error) where
  -- A step that goes on, and leaves the scopes and the process alone.
  abbrev Quiet : {A : Type 0} → Exec (Log Core Sink) A → Type 0
  Quiet {A} m =
      (w : Log Core Sink)
      → (a : A) × ((m w).0 ≡ ok a) × ((m w).1.scopes ≡ w.scopes) × ((m w).1.exited ≡ w.exited)

  bind-Quiet :
      {A B : Type 0} (m : Exec (Log Core Sink) A) (k : A → Exec (Log Core Sink) B)
      → Quiet m
      → ((a : A) → Quiet (k a))
      → Quiet (m >>= k)
  bind-Quiet m k h g w =
      let (a, e, s, x) = h w in
      let (b, e', s', x') = g a (m w).1 in
      (
        b,
        ap (λ r. (continue r k (m w).1).0) e ∙ e',
        ap (λ r. (continue r k (m w).1).1.scopes) e ∙ s' ∙ s,
        ap (λ r. (continue r k (m w).1).1.exited) e ∙ x' ∙ x,
      )

  if-Quiet :
      {A : Type 0} (b : Bool) (m n : Exec (Log Core Sink) A)
      → Quiet m
      → Quiet n
      → Quiet (if b then m else n)
  if-Quiet true m n h g = h
  if-Quiet false m n h g = g

  write_cores-Quiet :
      (cores : List Core) (e : Entry) (fields : List Field)
      → Quiet (write_cores {Core = Core} {Sink = Sink} core_enabled core_write cores e fields)
  unfolding write_cores record_write
  write_cores-Quiet [] e fields w = ([], refl, refl, refl)
  write_cores-Quiet (core ∷ cores) e fields w =
      let first =
        if core_enabled core e.level
        then record_write core_enabled core_write core e fields
        else pure tt in
      let rest = write_cores {Sink = Sink} core_enabled core_write cores e fields in
      let all : List Error → Exec (Log Core Sink) (List Error) = λ errors. pure (
        if core_enabled core e.level
        then onto_error (core_write core e fields) errors
        else errors) in
      bind-Quiet (first >> rest) all
        (bind-Quiet first (λ _. rest)
          (if-Quiet (core_enabled core e.level) (record_write core_enabled core_write core e fields)
            (pure tt) (λ v. (tt, refl, refl, refl)) (λ v. (tt, refl, refl, refl)))
          (λ _. write_cores-Quiet cores e fields))
        (λ errors v. (
          if core_enabled core e.level
              then onto_error (core_write core e fields) errors
              else errors,
          refl,
          refl,
          refl,
        ))
        w

  report-Quiet :
      (sink : Sink) (errors : List Error)
      → Quiet (report {Core = Core} core_enabled core_write sink errors)
  unfolding report
  report-Quiet sink [] w = (tt, refl, refl, refl)
  report-Quiet sink (e ∷ errors) w = (tt, refl, refl, refl)

  abbrev Ends : Option ℕ → Exec (Log Core Sink) (Unit {0}) → Log Core Sink → Type 0
  Ends code m w = ((m w).0 ≡ ok tt) × ((m w).1.scopes ≡ w.scopes) × ((m w).1.exited ≡ code)

  Quiet-Ends :
      (m : Exec (Log Core Sink) (Unit {0})) (w : Log Core Sink) → Quiet m → Ends w.exited m w
  Quiet-Ends m w h = let (a, e, s, x) = h w in (e, s, x)

  finish_lem :
      (level : ZapLevel) (sink : Sink) (errors : List Error) (w : Log Core Sink)
      → Ends
          (code_after level w.exited)
          (finish {Core = Core} core_enabled core_write level sink errors)
          w
  unfolding finish
  finish_lem fatal sink errors w = (refl, refl, refl)
  finish_lem error sink errors w =
      Quiet-Ends (report core_enabled core_write sink errors) w (report-Quiet sink errors)
  finish_lem warn sink errors w =
      Quiet-Ends (report core_enabled core_write sink errors) w (report-Quiet sink errors)
  finish_lem info sink errors w =
      Quiet-Ends (report core_enabled core_write sink errors) w (report-Quiet sink errors)
  finish_lem debug sink errors w =
      Quiet-Ends (report core_enabled core_write sink errors) w (report-Quiet sink errors)

  abbrev code_through : Option (PatchTable Core Sink) → ZapLevel → Option ℕ → Option ℕ
  code_through none level x = x
  code_through (some table) level x = code_after level x

  emit_through_lem :
      (table : Option (PatchTable Core Sink)) (e : Entry) (fields : List Field) (w : Log Core Sink)
      → Ends
          (code_through table e.level w.exited)
          (emit_through core_enabled core_write table e fields)
          w
  unfolding emit_through
  emit_through_lem none e fields w = (refl, refl, refl)
  emit_through_lem (some table) e fields w =
      let m = write_cores core_enabled core_write table.cores e fields in
      let (errors, ok_errors, s, x) = write_cores-Quiet table.cores e fields w in
      let (done, s', x') = finish_lem e.level table.error_sink errors (m w).1 in
      let k = finish core_enabled core_write e.level table.error_sink in
      (
        ap (λ r. (continue r k (m w).1).0) ok_errors ∙ done,
        ap (λ r. (continue r k (m w).1).1.scopes) ok_errors ∙ s' ∙ s,
        ap (λ r. (continue r k (m w).1).1.exited) ok_errors ∙ x' ∙ ap (code_after e.level) x,
      )

  abbrev code_of : ZapLevel → Scope Core Sink → Option ℕ → Option ℕ
  code_of level scope x =
      if at_least (needed level) scope.output_level then code_through scope.pt level x else x

  log_if_lem :
      (stack : ZapLevel → Level) (level : ZapLevel) (message : String) (fields : List Field)
      (scope : Scope Core Sink) (w : Log Core Sink)
      → Ends
          (code_of level scope w.exited)
          (log_if core_enabled core_write stack level message fields scope)
          w
  unfolding log_if emit
  log_if_lem stack level message fields scope w =
      elim (Bool-cases (at_least (needed level) scope.output_level)) [
        | inl on ↦ rw on (emit_through_lem scope.pt _ fields w)
        | inr off ↦ rw off (refl, refl, refl)
      ]

  fatal_iff :
      (level : ZapLevel) (l : Level) (table : Option (PatchTable Core Sink))
      → ((if at_least (needed level) l then code_through table level none else none) ≡ some 1)
        ↔ ((level ≡ fatal) × (l ≢ none_level) × (table ≢ none))
  unfolding needed
  fatal_iff level l table = (ground arith, ground arith)

  code_of_iff :
      (level : ZapLevel) (scope : Scope Core Sink)
      → (code_of level scope none ≡ some 1) ↔ IsFatal level scope
  code_of_iff level scope =
      let iff = fatal_iff level scope.output_level scope.pt in
      (
        λ p. let (f, e, c) = iff.0 p in record { at_fatal = f; enabled = e; configured = c },
        λ f. iff.1 (f.at_fatal, f.enabled, f.configured),
      )

  -- A call of a method of a scope that exists returns, leaves all scopes as they are, and ends the process (which
  -- runs until then) exactly if it is Fatal, the scope's output level is not none, and Configure has given the
  -- scope something to write to; no failure of a core changes this.
  pub log-exits_iff :
      (level : ZapLevel) (name message : String) (fields : List Field) (scope : Scope Core Sink)
      (w : Log Core Sink)
      → find_scope name w ≡ some scope
      → w.exited ≡ none
      → ((log core_enabled core_write level name message fields w).0 ≡ ok tt)
        × ((log core_enabled core_write level name message fields w).1.scopes ≡ w.scopes)
        × (((log core_enabled core_write level name message fields w).1.exited ≡ some 1)
            ↔ IsFatal level scope)
  unfolding log deref
  log-exits_iff level name message fields scope w found running =
      let (done, s, x) = log_if_lem scope_stack level message fields scope w in
      let code = x ∙ ap (code_of level scope) running in
      let iff = code_of_iff level scope in
      rw found (done, s, (λ p. iff.0 (sym code ∙ p), λ f. code ∙ iff.1 f))
