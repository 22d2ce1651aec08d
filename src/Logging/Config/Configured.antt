-- ===== src/Logging/Config/Configured.antt =====
-- What Configure leaves of every scope (common/log/config.go).
use mathlib.Core.Path.{subst}
use polaris_controller.Common.{
  String, ◌≡◌, refl, sym, ap, ◌∙◌, Bool, true, false, ◌==◌, Bool-cases, Option-cases, inl, inr,
  if◌then◌else◌, Option, none, some, List, [], ◌∷◌, eq_iff,
}
use polaris_controller.Common.Dict.{Dict, lookup}
use polaris_controller.Common.Outcome.{Error, Outcome, ok, err, panic, Exec, continue, when}
use polaris_controller.Logging.Levels.{
  Level, Options, default_logger_name, string_to_level, level_to_string,
}
use polaris_controller.Logging.Scopes.{Scope, Log, find_scope, deref}
use polaris_controller.Logging.Config.{
  Core, Sink, Prepared, set_default_option, or_default, update_scopes, capture, prep_zap,
  configure_one, configure,
}
use polaris_controller.Logging.Config.Updates.{
  updated, updated_log, find_scope-updated_log, update_scopes-ok,
}

-- A name of a level in the options, "" for the default.
abbrev pub level_name : String → String → String
level_name text name = if name == "" then text else name

-- The scope has the levels of the options, records callers, and writes through the cores made of the options.
pub record IsConfigured (prepare : Options → Outcome Prepared) (o : Options)
    (scope : Scope Core Sink) : Type 0 where
  pub at_level : string_to_level (level_name "info" o.output_level) ≡ some scope.output_level
  pub traced_at :
      string_to_level (level_name "none" o.stack_trace_level) ≡ some scope.stack_trace_level
  pub with_callers : scope.log_callers ≡ true
  pub made : Prepared
  pub prepared : prepare (set_default_option o) ≡ ok made
  pub writes_to : scope.pt ≡ some (record { cores = made.cores; error_sink = made.err_sink })

-- What is left of the scope of a name, by the entry for the name.
abbrev pub Left :
    (Options → Outcome Prepared)
    → Option (Option Options)
    → Option (Scope Core Sink)
    → Option (Scope Core Sink)
    → Type 0
Left prepare none before after = after ≡ before
Left prepare (some none) before after = ⊥
Left prepare (some (some o)) before after =
    (scope : Scope Core Sink) × (after ≡ some scope) × IsConfigured prepare o scope

-- A map of Go has a key once.
abbrev pub HasKeysOnce {ℓ} : {V : Type ℓ} → Dict V → Type ℓ
HasKeysOnce [] = Unit
HasKeysOnce (entry ∷ rest) = (lookup entry.0 rest ≡ none) × HasKeysOnce rest

continue-eq-ok :
    {S A B : Type 0} (r : Outcome A) (k : A → Exec S B) (s : S) {b : B} {s' : S}
    → continue r k s ≡ (ok b, s')
    → (a : A) × (r ≡ ok a) × (k a s ≡ (ok b, s'))
continue-eq-ok (ok a) k s h = (a, refl, h)
continue-eq-ok (err e) k s h = cc
continue-eq-ok panic k s h = cc

capture-scopes :
    (o : Options) (p : Prepared) (w : Log Core Sink) → (capture o p w).1.scopes ≡ w.scopes
unfolding capture deref
capture-scopes o p w = elim (Option-cases (find_scope default_logger_name w)) [
  | inl missing ↦ rw missing refl
  | inr (scope, found) ↦ rw found refl
]

when-scopes :
    (b : Bool) (m : Exec (Log Core Sink) (Unit {0})) (w : Log Core Sink)
    → (m w).1.scopes ≡ w.scopes
    → (when b m w).1.scopes ≡ w.scopes
when-scopes true m w h = h
when-scopes false m w h = refl

-- How the scopes change when the one of `name` becomes `scope`.
abbrev Becomes : String → Scope Core Sink → Log Core Sink → Log Core Sink → Type 0
Becomes name scope w w' =
    (sought : String)
    → find_scope sought w' ≡ (if name == sought then some scope else find_scope sought w)

same_scopes :
    (name : String) (scope : Scope Core Sink) (w w' w'' : Log Core Sink)
    → Becomes name scope w w'
    → w''.scopes ≡ w'.scopes
    → Becomes name scope w w''
unfolding find_scope
same_scopes name scope w w' w'' h e sought = ap (lookup sought) e ∙ h sought

module _ (parse_url : String → Option (String × String)) (dir : String → String)
    (mkdir_all : String → Option Error) (open_paths : List String → Option Error) where
  abbrev pub prepare : Options → Outcome Prepared
  prepare = prep_zap parse_url dir mkdir_all open_paths

  set_default_option-IsConfigured :
      (name : String) (o : Options) (p : Prepared) (scope : Scope Core Sink) (w : Log Core Sink)
      (l t : Level)
      → prepare (set_default_option o) ≡ ok p
      → string_to_level (set_default_option o).output_level ≡ some l
      → string_to_level (set_default_option o).stack_trace_level ≡ some t
      → IsConfigured prepare o (updated name (set_default_option o) p.cores p.err_sink scope w l t)
  unfolding set_default_option or_default updated level_to_string
  set_default_option-IsConfigured name o p scope w l t e f g = record {
    at_level = f;
    traced_at = g;
    with_callers = refl;
    made = p;
    prepared = e;
    writes_to = refl;
  }

  configure_one-ok :
      (name : String) (entry : Option Options) (w w' : Log Core Sink)
      → configure_one parse_url dir mkdir_all open_paths name entry w ≡ (ok tt, w')
      → (o : Options) × (scope : Scope Core Sink) × (entry ≡ some o)
        × IsConfigured prepare o scope
        × Becomes name scope w w'
  unfolding configure_one
  configure_one-ok name none w w' h = cc
  configure_one-ok name (some o) w w' h =
      let o' = set_default_option o in
      let (p, e, h1) = continue-eq-ok (prepare o') _ w h in
      let v = update_scopes name o' p.cores p.err_sink w in
      let (u, e2, h2) = continue-eq-ok v.0 _ v.1 h1 in
      let (scope, l, t, f, g, x) = update_scopes-ok name o' p.cores p.err_sink w e2 in
      let kept =
        ap (λ q. q.1.scopes) (sym h2)
        ∙ when-scopes (name == default_logger_name) (capture o' p) v.1 (capture-scopes o' p v.1) in
      (
        o,
        updated name o' p.cores p.err_sink scope w l t,
        refl,
        set_default_option-IsConfigured name o p scope w l t e f g,
        same_scopes name (updated name o' p.cores p.err_sink scope w l t) w
            (updated_log name o' p.cores p.err_sink scope w l t) w'
            (find_scope-updated_log name o' p.cores p.err_sink scope w l t)
            (kept ∙ ap (λ q. q.scopes) x),
      )

  -- After a Configure without an error, every scope whose name has an entry has the levels of the entry's options
  -- (info and none where these are empty), records callers whatever the options say, and writes through the cores that prepZap
  -- made of the options; every other scope is as before, and no entry was nil. The map has a name once.
  pub configure-Left :
      (entries : Dict (Option Options)) (w w' : Log Core Sink)
      → HasKeysOnce entries
      → configure parse_url dir mkdir_all open_paths entries w ≡ (ok tt, w')
      → (name : String)
      → Left prepare (lookup name entries) (find_scope name w) (find_scope name w')
  unfolding configure lookup
  configure-Left [] w w' once h name = ap (λ p. find_scope name p.1) (sym h)
  configure-Left (entry ∷ entries) w w' (fresh, once) h name =
      let one = configure_one parse_url dir mkdir_all open_paths entry.0 entry.1 w in
      let (u, e, h') = continue-eq-ok one.0 _ one.1 h in
      let (o, scope, is_o, made, becomes) =
        configure_one-ok entry.0 entry.1 w one.1 (λ i. (e i, one.1)) in
      let rest = configure-Left entries one.1 w' once h' name in
      let then_find = λ (b : Bool). if b then some scope else find_scope name w in
      elim (Bool-cases (entry.0 == name)) [
        | inl same ↦
            let gone = ap (λ k. lookup k entries) (sym ((eq_iff entry.0 name).0 same)) ∙ fresh in
            let after =
              subst (λ e. Left prepare e (find_scope name one.1) (find_scope name w')) gone rest in
            rw (same, is_o) (scope, after ∙ becomes name ∙ ap then_find same, made)
        | inr other ↦ rw other (
            subst (λ before. Left prepare (lookup name entries) before (find_scope name w'))
              (becomes name ∙ ap then_find other) rest)
      ]
