-- ===== src/Inject/JavaAgent/Init/Image.antt =====
-- When the completion of the agent's init container panics (javaagent/patch.go).
use polaris_controller.Common.{
  String, ◌≡◌, ◌≢◌, ◌↔◌, refl, sym, ap, ◌∙◌, Bool, true, false, ◌==◌, eq_iff, Option, none, some,
  List, [], ◌∷◌, ◌++◌, arith, Bool-cases, inl, inr,
}
use polaris_controller.Common.Dict.{Dict, index}
use polaris_controller.Common.Outcome.{Outcome, ok, err, panic, Exec, continue, lift, ◌>>=◌, when}
use polaris_controller.Util.Text.{◌⋯◌}
use polaris_controller.Util.Split.{split, part}
use polaris_controller.Inject.Options.{PatchOptions}
use polaris_controller.Inject.JavaAgent.{is_old_version, annotation_key_java_agent_version}
use polaris_controller.Inject.JavaAgent.Init.{
  InitState, note_tag, set_version, choose_image, framework_env, default_param, old_agent_conf,
  handle_java_agent_init, complete_env, with_custom, read_custom, server_env,
}
use polaris_controller.Inject.JavaAgent.Init.Parts.{HasParts, split-nonempty, joined-HasParts}

-- A computation that goes on without a panic.
returns :
    {S A B : Type 0} (m : Exec S A) (k : A → Exec S B) (s : S)
    → (m s).0 ≢ panic
    → ((a : A) → (m s).0 ≡ ok a → (k a (m s).1).0 ≢ panic)
    → ((m >>= k) s).0 ≢ panic
returns m k s h hk = go (m s).0 refl
  where
    go : (r : _) → (m s).0 ≡ r → (continue r k (m s).1).0 ≢ panic
    go (ok a) e = hk a e
    go (err x) e = ground arith
    go panic e = λ _. h e

then_ok :
    {S A B : Type 0} (m : Exec S A) (k : A → Exec S B) (s : S) (a : A) (s' : S)
    → m s ≡ (ok a, s')
    → (m >>= k) s ≡ k a s'
then_ok m k s a s' e = ap (λ r. continue r.0 k r.1) e

lift_ok :
    {S A B : Type 0} (r : Outcome A) (k : A → Exec S B) (s : S) (a : A)
    → r ≡ ok a
    → (lift r >>= k) s ≡ k a s
lift_ok r k s a e = ap (λ o. continue o k s) e

asked_version : PatchOptions → String
asked_version opt = index annotation_key_java_agent_version opt.pod.annotations

image-note_tag : (words : List String) (s : InitState) → (note_tag words s).add.image ≡ s.add.image
image-note_tag [] s = refl
image-note_tag (w ∷ []) s = refl
image-note_tag (w ∷ v ∷ words) s = refl

choose_image-kept :
    (opt : PatchOptions) (s : InitState)
    → asked_version opt == "" ≡ true
    → choose_image opt s ≡ (ok tt, note_tag (split b':' s.add.image) s)
unfolding choose_image asked_version
choose_image-kept opt s h = rw h refl

choose_image-asked :
    (opt : PatchOptions) (s : InitState)
    → asked_version opt == "" ≡ false
    → (s' : InitState) × (choose_image opt s ≡ (ok tt, s')) × HasParts s'.add.image
unfolding choose_image asked_version part
choose_image-asked opt s h =
    let (name, rest, e) = split-nonempty s.add.image in
    let version = asked_version opt in
    let noted = note_tag (name ∷ rest) s in
    let s' =
      set_version version
        (record noted { add = record noted.add { image = name ⋯ ":" ⋯ version } }) in
    (s', rw (h, e) refl, joined-HasParts name version)

module _ (polaris_grpc polaris_config_grpc : String) (plugin_config_map : Outcome (Dict String))
    (render : String → Dict String → Outcome String) (unmarshal : String → Dict String × Bool) where
  abbrev pub handled : PatchOptions → InitState → Outcome (Unit {0})
  handled opt s =
      (handle_java_agent_init polaris_grpc polaris_config_grpc plugin_config_map render unmarshal
        opt s).0

  abbrev completed : PatchOptions → InitState → Outcome (Unit {0})
  completed opt s =
      (complete_env polaris_grpc polaris_config_grpc plugin_config_map render unmarshal opt s).0

  after_choice :
      (opt : PatchOptions) (s s' : InitState)
      → choose_image opt s ≡ (ok tt, s')
      → handled opt s ≡ completed opt s'
  unfolding handle_java_agent_init
  after_choice opt s s' chosen =
      ap
        (λ r.
          (continue r.0
            (λ _.
              complete_env polaris_grpc polaris_config_grpc plugin_config_map render unmarshal opt)
            r.1).0)
        chosen

  module _ (grpc : HasParts polaris_grpc) (config_grpc : HasParts polaris_config_grpc)
      (config_map_returns : plugin_config_map ≢ panic)
      (render_returns : (name : String) (param : Dict String) → render name param ≢ panic) where
    with_custom-returns :
        (config : Option String) (properties : Dict String)
        → with_custom polaris_grpc polaris_config_grpc plugin_config_map render unmarshal config
            properties
          ≢ panic
    unfolding with_custom read_custom
    with_custom-returns none properties = ground arith
    with_custom-returns (some config) properties = elim (Bool-cases (unmarshal config).1) [
      | inl good ↦ rw good (ground arith)
      | inr bad ↦ rw bad (ground arith)
    ]

    old_agent_conf-returns :
        (opt : PatchOptions) (param : Dict String) (s : InitState)
        → (old_agent_conf polaris_grpc polaris_config_grpc plugin_config_map render unmarshal opt
            param s).0
          ≢ panic
    unfolding old_agent_conf
    old_agent_conf-returns opt param s =
        returns (lift plugin_config_map) _ s config_map_returns (λ config _.
          returns (lift (render _ _)) _ s (render_returns _ _) (λ text _.
            returns
              (lift (
                with_custom polaris_grpc polaris_config_grpc plugin_config_map render unmarshal _
                  _))
              _ s (with_custom-returns _ _) (λ properties _. ground arith)))

    default_param-ok :
        (opt : PatchOptions) (s : InitState)
        → (param : Dict String) × (default_param polaris_grpc polaris_config_grpc plugin_config_map
              render unmarshal opt s
            ≡ (ok param, s))
    unfolding default_param part
    default_param-ok opt s =
        let (host, port, rest, d) = grpc in
        let (host', port', rest', d') = config_grpc in
        (
          _,
          lift_ok _ _ s host (ap (part 0) d)
              ∙ lift_ok _ _ s port (ap (part 1) d)
              ∙ lift_ok _ _ s host' (ap (part 0) d')
              ∙ lift_ok _ _ s port' (ap (part 1) d'),
        )

    complete_env-param :
        (opt : PatchOptions) (s : InitState)
        → (param : Dict String) × (completed opt s
            ≡ (let s' = record s {
              add = record s.add {
                env =
                    s.add.env
                    ++ framework_env opt
                    ++ server_env polaris_grpc polaris_config_grpc plugin_config_map render
                        unmarshal param;
              };
            } in
                (lift (part 1 (split b':' s.add.image)) >>= λ version.
                when (is_old_version version) (
                  old_agent_conf polaris_grpc polaris_config_grpc plugin_config_map render unmarshal
                    opt param))
                  s').0)
    unfolding complete_env
    complete_env-param opt s =
        let s' = record s { add = record s.add { env = s.add.env ++ framework_env opt } } in
        let (param, d) = default_param-ok opt s' in
        (
          param,
          ap (λ r. r.0)
              (then_ok
                (default_param polaris_grpc polaris_config_grpc plugin_config_map render unmarshal
                  opt)
                _ s' param s' d),
        )

    without_tag :
        (opt : PatchOptions) (s : InitState) (name : String)
        → split b':' s.add.image ≡ name ∷ []
        → completed opt s ≡ panic
    unfolding part
    without_tag opt s name e = (complete_env-param opt s).1 ∙ rw e refl

    with_tag : (opt : PatchOptions) (s : InitState) → HasParts s.add.image → completed opt s ≢ panic
    unfolding part
    with_tag opt s (name, tag, more, e) =
        let (param, d) = complete_env-param opt s in
        rw (d, e)
          (elim (Bool-cases (is_old_version tag)) [
            | inl old ↦ rw old (old_agent_conf-returns opt _ _)
            | inr new ↦ rw new (ground arith)
          ])

    images :
        (opt : PatchOptions) (s : InitState) (words : List String)
        → split b':' s.add.image ≡ words
        → choose_image opt s ≡ (ok tt, note_tag words s)
        → (handled opt s ≡ panic) ↔ ((name : String) × (words ≡ name ∷ []))
    images opt s [] e chosen =
        let (w, rest, d) = split-nonempty s.add.image in
        let impossible : [] ≢ w ∷ rest = ground arith in
        (λ p. absurd (impossible (sym e ∙ d)), λ (name, h). absurd (impossible (sym e ∙ d)))
    images opt s (w ∷ []) e chosen =
        (λ p. (w, refl), λ _. after_choice opt s s chosen ∙ without_tag opt s w e)
    images opt s (w ∷ v ∷ words) e chosen =
        let s' = note_tag (w ∷ v ∷ words) s in
        (
          λ p. absurd (with_tag opt s' (w, v, words, e) (sym (after_choice opt s s' chosen) ∙ p)),
          λ (name, h). absurd (let two : w ∷ v ∷ words ≢ name ∷ [] = ground arith in two h),
        )

    -- When the addresses of the server have ports, and the calls that leave the program return, the init
    -- container is completed, or refused with an error, unless its image has no tag and no
    -- annotation asks for a version; then the code panics.
    pub handle_java_agent_init-panics_iff :
        (opt : PatchOptions) (s : InitState)
        → (handled opt s ≡ panic) ↔ (
            (index annotation_key_java_agent_version opt.pod.annotations ≡ "")
            × ((name : String) × (split b':' s.add.image ≡ name ∷ [])))
    unfolding asked_version
    handle_java_agent_init-panics_iff opt s = elim (Bool-cases (asked_version opt == "")) [
      | inl empty ↦
          let both = images opt s (split b':' s.add.image) refl (choose_image-kept opt s empty) in
          (λ p. ((eq_iff (asked_version opt) "").0 empty, both.0 p), λ (_, one). both.1 one)
      | inr asked ↦
          let (s', chosen, parts) = choose_image-asked opt s asked in
          (
            λ p. absurd (with_tag opt s' parts (sym (after_choice opt s s' chosen) ∙ p)),
            λ (none_asked, _).
                absurd (ground (arith, asked, (eq_iff (asked_version opt) "").1 none_asked)),
          )
    ]
