-- ===== src/Inject/JavaAgent/Updated.antt =====
-- The containers of a pod after updateContainer (javaagent/patch.go).
use mathlib.Core.List.{append_assoc}
use polaris_controller.Common.{
  ℕ, suc, String, ◌≡◌, ◌⊎◌, refl, ap, ◌∙◌, true, false, Bool, ◌==◌, eq_iff, if◌then◌else◌, Option,
  none, some, List, [], ◌∷◌, ◌++◌, Pointwise, length, length-append, arith, Bool-cases, inl, inr,
}
use polaris_controller.Common.Dict.{Dict, lookup, insert, lookup-insert, index, merge}
use polaris_controller.Util.Text.{◌⋯◌}
use polaris_controller.Inject.Objects.{Container, EnvVar}
use polaris_controller.Inject.Options.{PatchOptions}
use polaris_controller.Inject.Patch.Lists.{perform, run, replace_index-append}
use polaris_controller.Inject.JavaAgent.{
  java_tool_options, update_java_env_var, no_variable, with_java_options, update_env,
  updated_container, update_each, java_agent_mount, is_old_version, custom_over, custom_properties,
  annotation_key_java_agent_version, annotation_key_java_agent_plugin_config,
  old_active_java_agent_cmd, active_java_agent_cmd, java_tool_options_value, get_default_properties,
}

-- The variable that the container sees under a name that is there once.
unfoldable pub find_env : String → List EnvVar → Option EnvVar
find_env n [] = none
find_env n (e ∷ envs) = if e.name == n then some e else find_env n envs

abbrev pub or_no_variable : Option EnvVar → EnvVar
or_no_variable none = no_variable
or_no_variable (some e) = e

-- JAVA_TOOL_OPTIONS ends with the command and the options, after the text that it had, or after
-- nothing; the first variable of every other name is the same as before.
pub find_env-with_java_options :
    (n cmd version : String) (envs : List EnvVar)
    → find_env n (with_java_options cmd version envs) ≡ (
        if n == java_tool_options
        then some
            (update_java_env_var (or_no_variable (find_env java_tool_options envs)) cmd version)
        else find_env n envs)
unfolding find_env with_java_options update_java_env_var
find_env-with_java_options n cmd version [] =
    ground (arith, eq_iff n java_tool_options, eq_iff java_tool_options n)
find_env-with_java_options n cmd version (e ∷ envs) =
    let later = find_env-with_java_options n cmd version envs in
    elim (Bool-cases (e.name == java_tool_options)) [
      | inl here ↦ rw here (
          ground (
            arith,
            eq_iff n java_tool_options,
            eq_iff java_tool_options n,
            (eq_iff e.name java_tool_options).0 here,
          ))
      | inr other ↦
          rw (other, later) (ground (arith, eq_iff e.name n, eq_iff n java_tool_options, other))
    ]

-- What the pod asks for.
abbrev pub asked_version : PatchOptions → String
asked_version opt = index annotation_key_java_agent_version opt.pod.annotations

abbrev pub agent_cmd : PatchOptions → String
agent_cmd opt =
    if is_old_version (asked_version opt)
    then old_active_java_agent_cmd (asked_version opt)
    else active_java_agent_cmd

abbrev pub first_some : Option String → Option String → Option String
first_some none o = o
first_some (some v) o = some v

-- The value of a key in the order in which a range statement visits a map.
unfoldable pub last_value : String → Dict String → Option String
last_value k [] = none
last_value k ((j, v) ∷ m) = first_some (last_value k m) (if j == k then some v else none)

lookup-merge :
    (k : String) (into from : Dict String)
    → lookup k (merge into from) ≡ first_some (last_value k from) (lookup k into)
unfolding merge last_value
lookup-merge k into [] = refl
lookup-merge k into ((j, v) ∷ from) =
    lookup-merge k (insert j v into) from
    ∙ rw (lookup-insert j k v into) (two (last_value k from) (j == k) v (lookup k into))
  where
    two :
        (o : Option String) (b : Bool) (w : String) (p : Option String)
        → first_some o (if b then some w else p)
          ≡ first_some (first_some o (if b then some w else none)) p
    two none true w p = refl
    two none false w p = refl
    two (some x) b w p = refl

first_some-twice : (o p : Option String) → first_some o (first_some o p) ≡ first_some o p
first_some-twice none p = refl
first_some-twice (some v) p = refl

module _ (unmarshal : String → Dict String × Bool) where
  -- The settings in the annotation: none without it, or where it is empty.
  abbrev pub settings_in : Option String → Dict String
  settings_in none = []
  settings_in (some text) = if text == "" then [] else (unmarshal text).0

  -- The settings are those of the annotation, and the pod's own where it has none.
  abbrev pub IsSettings : Option String → Dict String → Dict String → Type 0
  IsSettings config defaults properties =
      (k : String)
      → lookup k properties ≡ first_some (last_value k (settings_in config)) (lookup k defaults)

  abbrev IsBetween : Option String → Dict String → Dict String → Type 0
  IsBetween config defaults properties =
      (k : String)
      → first_some (last_value k (settings_in config)) (lookup k properties)
        ≡ first_some (last_value k (settings_in config)) (lookup k defaults)

  custom_over-IsSettings :
      (config : Option String) (defaults properties : Dict String)
      → IsBetween config defaults properties
      → IsSettings config defaults (custom_over unmarshal properties config)
  unfolding custom_over custom_properties last_value
  custom_over-IsSettings none defaults properties h k = h k
  custom_over-IsSettings (some text) defaults properties h k =
      lookup-merge k properties (settings_in (some text)) ∙ h k

  IsSettings-IsBetween :
      (config : Option String) (defaults properties : Dict String)
      → IsSettings config defaults properties
      → IsBetween config defaults properties
  IsSettings-IsBetween config defaults properties h k =
      ap (first_some (last_value k (settings_in config))) (h k)
      ∙ first_some-twice (last_value k (settings_in config)) (lookup k defaults)

  -- The options after the agent's command: none for an old agent, and otherwise the settings.
  abbrev pub IsAgentOptions : PatchOptions → String → Type 0
  IsAgentOptions opt options =
      ((is_old_version (asked_version opt) ≡ true) × (options ≡ ""))
      ⊎ ((is_old_version (asked_version opt) ≡ false)
          × ((properties : Dict String) × IsSettings
                (lookup annotation_key_java_agent_plugin_config opt.pod.annotations)
                (get_default_properties opt) properties
              × (options ≡ java_tool_options_value properties)))

  -- What the injection makes of a container: the agent's directory is mounted after the other mounts,
  -- JAVA_TOOL_OPTIONS goes on with the agent's command and its options, and the rest is as before.
  abbrev pub HasAgent : PatchOptions → Container → Container → Type 0
  HasAgent opt c c' =
      (options : String) × IsAgentOptions opt options
      × (c' ≡ record c { env = c'.env; volume_mounts = c.volume_mounts ++ java_agent_mount ∷ [] })
      × ((n : String)
          → find_env n c'.env ≡ (
              if n == java_tool_options
              then some (record {
                name = java_tool_options;
                value =
                    (or_no_variable (find_env java_tool_options c.env)).value
                    ⋯ " "
                    ⋯ agent_cmd opt
                    ⋯ options;
                value_from = none;
              })
              else find_env n c.env))

  -- A version and notes with which the environment is the one that the pod asks for.
  abbrev pub FitsRequest : PatchOptions → String → Dict String → Type 0
  FitsRequest opt version external =
      (properties : Dict String) (envs : List EnvVar)
      → update_env unmarshal version external properties envs
        ≡ with_java_options (agent_cmd opt)
            (if is_old_version (asked_version opt) then "" else java_tool_options_value properties)
            envs

  updated_container-HasAgent :
      (opt : PatchOptions) (version : String) (external properties : Dict String) (c : Container)
      → FitsRequest opt version external
      → IsSettings
          (lookup annotation_key_java_agent_plugin_config opt.pod.annotations)
          (get_default_properties opt)
          properties
      → HasAgent opt c (updated_container unmarshal version external properties c)
  unfolding updated_container update_java_env_var
  updated_container-HasAgent opt version external properties c fits settings =
      let old = is_old_version (asked_version opt) in
      let options = if old then "" else java_tool_options_value properties in
      (
        options,
        elim (Bool-cases old) [
          | inl is ↦ rw is (inl (refl, refl))
          | inr new ↦ rw new (inr (refl, (properties, settings, refl)))
        ],
        refl,
        λ n.
            ap (find_env n) (fits properties c.env)
            ∙ find_env-with_java_options n (agent_cmd opt) options c.env,
      )

  -- The list that the operations leave, when they are applied to the list that they were made from.
  pub updated_each :
      Option String → String → Dict String → Dict String → List Container → List Container
  updated_each config version external properties [] = []
  updated_each config version external properties (c ∷ containers) =
      let properties' = custom_over unmarshal properties config in
      updated_container unmarshal version external properties' c
      ∷ updated_each config version external properties' containers

  pub updated_each-HasAgent :
      (opt : PatchOptions) (version : String) (external properties : Dict String)
      (containers : List Container)
      → FitsRequest opt version external
      → IsBetween
          (lookup annotation_key_java_agent_plugin_config opt.pod.annotations)
          (get_default_properties opt)
          properties
      → Pointwise (HasAgent opt) containers (
          updated_each
            (lookup annotation_key_java_agent_plugin_config opt.pod.annotations)
            version
            external
            properties
            containers)
  unfolding updated_each
  updated_each-HasAgent opt version external properties [] fits between = tt
  updated_each-HasAgent opt version external properties (c ∷ containers) fits between =
      let config = lookup annotation_key_java_agent_plugin_config opt.pod.annotations in
      let properties' = custom_over unmarshal properties config in
      let settings =
        custom_over-IsSettings config (get_default_properties opt) properties between in
      (
        updated_container-HasAgent opt version external properties' c fits settings,
        updated_each-HasAgent opt version external properties' containers fits
            (IsSettings-IsBetween config (get_default_properties opt) properties' settings),
      )

  pub run-update_each :
      (config : Option String) (version : String) (external properties : Dict String)
      (base : String) (pre containers post : List Container) (i : ℕ)
      → length pre ≡ i
      → run
          (update_each unmarshal config version external properties base i containers)
          (some (pre ++ (containers ++ post)))
        ≡ some (some (pre ++ (updated_each config version external properties containers ++ post)))
  unfolding update_each updated_each run perform
  run-update_each config version external properties base pre [] post i e = refl
  run-update_each config version external properties base pre (c ∷ containers) post i e =
      let properties' = custom_over unmarshal properties config in
      let c' = updated_container unmarshal version external properties' c in
      let later =
        run-update_each config version external properties' base (pre ++ c' ∷ []) containers post
          (suc i) (length-append pre (c' ∷ []) ∙ omega (arith, e)) in
      rw
        (
          ← e,
          replace_index-append pre c c' (containers ++ post),
          ← append_assoc pre (c' ∷ []) (containers ++ post),
          ← append_assoc pre (c' ∷ [])
              (updated_each config version external properties' containers ++ post),
          e,
        )
        later
