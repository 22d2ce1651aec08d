-- ===== src/Logging/Config/Updates.antt =====
-- updateScopes, step by step (common/log/config.go).
use polaris_controller.Common.{
  String, ◌≡◌, refl, sym, ap, ◌∙◌, ◌==◌, Bool-cases, Option-cases, inl, inr, if◌then◌else◌, none,
  some, List, arith, eq_refl,
}
use polaris_controller.Common.Dict.{insert, lookup-insert}
use polaris_controller.Common.Outcome.{ok, err, Exec, continue, ◌>>◌, unknown_level, unknown_logger}
use polaris_controller.Logging.Levels.{Level, Options, string_to_level}
use polaris_controller.Logging.Scopes.{
  Scope, Log, find_scope, deref, update_scope, set_scope_output_level, set_scope_stack_trace_level,
}
use polaris_controller.Logging.Config.{
  Core, Sink, known_level, set_log_callers, set_table, update_levels, update_scopes,
}

update_scope-found :
    (name : String) (f : Scope Core Sink → Scope Core Sink) (w : Log Core Sink)
    (scope : Scope Core Sink)
    → find_scope name w ≡ some scope
    → update_scope name f w ≡ (ok tt, record w { scopes = insert name (f scope) w.scopes })
unfolding update_scope deref find_scope
update_scope-found name f w scope found = rw found refl

update_then :
    {A : Type 0} (name : String) (f : Scope Core Sink → Scope Core Sink)
    (k : Exec (Log Core Sink) A) (w : Log Core Sink) (scope : Scope Core Sink)
    → find_scope name w ≡ some scope
    → (update_scope name f >> k) w ≡ k (record w { scopes = insert name (f scope) w.scopes })
update_then name f k w scope found =
    ap (λ p. continue p.0 (λ _. k) p.1) (update_scope-found name f w scope found)

find_scope-insert :
    (name : String) (scope : Scope Core Sink) (w : Log Core Sink)
    → find_scope name (record w { scopes = insert name scope w.scopes }) ≡ some scope
unfolding find_scope
find_scope-insert name scope w =
    lookup-insert name name scope w.scopes ∙ ground (arith, eq_refl name)

module _ (name : String) (o : Options) (cores : List Core) (sink : Sink) (scope : Scope Core Sink)
    (w : Log Core Sink) where
  unfoldable pub updated : Level → Level → Scope Core Sink
  updated l t = record scope {
    output_level = l;
    stack_trace_level = t;
    log_callers = o.log_caller;
    pt = some (record { cores = cores; error_sink = sink });
  }

  leveled : Level → Scope Core Sink
  leveled l = record scope { output_level = l }

  traced : Level → Level → Scope Core Sink
  unfolding leveled
  traced l t = record (leveled l) { stack_trace_level = t }

  tabled : Level → Level → Scope Core Sink
  unfolding traced
  tabled l t = record (traced l t) { pt = some (record { cores = cores; error_sink = sink }) }

  pub updated_log : Level → Level → Log Core Sink
  unfolding leveled traced tabled updated
  updated_log l t = record w {
    scopes =
        insert name (updated l t)
          (insert name (tabled l t) (insert name (traced l t) (insert name (leveled l) w.scopes)));
  }

  pub find_scope-updated_log :
      (l t : Level) (sought : String)
      → find_scope sought (updated_log l t)
        ≡ (if name == sought then some (updated l t) else find_scope sought w)
  unfolding find_scope updated_log
  find_scope-updated_log l t sought = elim (Bool-cases (name == sought)) [
    | inl same ↦ rw (lookup-insert, lookup-insert, lookup-insert, lookup-insert, same) refl
    | inr other ↦ rw (lookup-insert, lookup-insert, lookup-insert, lookup-insert, other) refl
  ]

  update_levels-known :
      (l t : Level)
      → string_to_level o.output_level ≡ some l
      → string_to_level o.stack_trace_level ≡ some t
      → find_scope name w ≡ some scope
      → update_levels name o cores sink (some scope) w ≡ (ok tt, updated_log l t)
  unfolding update_levels updated_log
  update_levels-known l t e d found =
      rw (e, d)
        (update_then name (set_scope_output_level l) _ w scope found
          ∙ update_then name (set_scope_stack_trace_level t) _ _ (leveled l)
              (find_scope-insert name _ w)
          ∙ update_then name (set_table (record { cores = cores; error_sink = sink })) _ _
              (traced l t) (find_scope-insert name _ _)
          ∙ update_scope-found name (set_log_callers o.log_caller) _ (tabled l t)
              (find_scope-insert name _ _))

  update_levels-no_output :
      string_to_level o.output_level ≡ none
      → (update_levels name o cores sink (some scope) w).0 ≡ err (unknown_level o.output_level)
  unfolding update_levels known_level
  update_levels-no_output e = rw e refl

  update_levels-no_trace :
      (l : Level)
      → string_to_level o.output_level ≡ some l
      → string_to_level o.stack_trace_level ≡ none
      → find_scope name w ≡ some scope
      → (update_levels name o cores sink (some scope) w).0 ≡ err (unknown_level o.stack_trace_level)
  unfolding update_levels known_level
  update_levels-no_trace l e d found =
      rw (e, d) (ap (λ p. p.0) (update_then name (set_scope_output_level l) _ w scope found))

  update_levels-ok :
      find_scope name w ≡ some scope
      → (update_levels name o cores sink (some scope) w).0 ≡ ok tt
      → (l : Level) × (t : Level) × (string_to_level o.output_level ≡ some l)
        × (string_to_level o.stack_trace_level ≡ some t)
        × ((update_levels name o cores sink (some scope) w).1 ≡ updated_log l t)
  update_levels-ok found h = elim (Option-cases (string_to_level o.output_level)) [
    | inl e ↦ cc (update_levels-no_output e)
    | inr (l, e) ↦ elim (Option-cases (string_to_level o.stack_trace_level)) [
      | inl d ↦ cc (update_levels-no_trace l e d found)
      | inr (t, d) ↦ (l, t, e, d, ap (λ p. p.1) (update_levels-known l t e d found))
    ]
  ]

unknown :
    (name : String) (o : Options) (cores : List Core) (sink : Sink) (w : Log Core Sink)
    → find_scope name w ≡ none
    → (update_scopes name o cores sink w).0 ≡ err (unknown_logger name)
unfolding update_scopes update_levels
unknown name o cores sink w e = rw e refl

pub update_scopes-ok :
    (name : String) (o : Options) (cores : List Core) (sink : Sink) (w : Log Core Sink)
    → (update_scopes name o cores sink w).0 ≡ ok tt
    → (scope : Scope Core Sink) × (l : Level) × (t : Level) × (string_to_level o.output_level
        ≡ some l)
      × (string_to_level o.stack_trace_level ≡ some t)
      × ((update_scopes name o cores sink w).1 ≡ updated_log name o cores sink scope w l t)
unfolding update_scopes
update_scopes-ok name o cores sink w h = elim (Option-cases (find_scope name w)) [
  | inl missing ↦ cc (unknown name o cores sink w missing)
  | inr (scope, found) ↦
      let e = ap (λ r. update_levels name o cores sink r w) found in
      let (l, t, f, g, x) =
        update_levels-ok name o cores sink scope w found (ap (λ p. p.0) (sym e) ∙ h) in
      (scope, l, t, f, g, ap (λ p. p.1) e ∙ x)
]
