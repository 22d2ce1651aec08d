-- ===== src/Inject/JavaAgent/Builder.antt =====
-- pkg/inject/pkg/kube/inject/apply/javaagent/patch.go: PodPatchBuilder of the mode java-agent.
use mathlib.Core.Option
use polaris_controller.Common.{
  ℕ, suc, String, Pointwise, ◌≡◌, ◌⊎◌, refl, sym, ap, ◌∙◌, eq_iff, Bool, false, ◌==◌, any, none,
  some, List, [], ◌∷◌, ◌++◌, map, arith, Bool-cases, inl, inr,
}
use polaris_controller.Common.Dict.{Dict, lookup, insert, lookup-insert, index, or_empty}
use polaris_controller.Common.Outcome.{Outcome, ok, err, panic, Exec, continue, gets, pure, ◌>>=◌}
use polaris_controller.Inject.Objects.{Container}
use polaris_controller.Inject.Options.{
  PatchOptions, PatchType, patch_remove, patch_add, patch_update,
}
use polaris_controller.Inject.Patch.{
  Operation, is_named, remove_from, remove_items, add_each, add_containers, with_account_mount,
  account_mount, container_name,
}
use polaris_controller.Inject.Patch.Lists.{run, contents, member, run-append, run-add_each}
use polaris_controller.Inject.Webhook.{
  PodPatchBuilder, patch_container, patch_volumes, patch_image_pull_secrets,
}
use polaris_controller.Inject.Webhook.Members.{IsBase}
use polaris_controller.Inject.JavaAgent.{
  get_default_properties, annotation_key_java_agent_plugin_config, update_each, choose_version,
  update_container, update_env, annotation_key_java_agent_version, with_annotation, is_set_true,
  is_old_version, with_java_options, old_active_java_agent_cmd,
}
use polaris_controller.Inject.JavaAgent.Init.{handle_all_added}
use polaris_controller.Inject.JavaAgent.Updated.{
  asked_version, FitsRequest, HasAgent, updated_each, updated_each-HasAgent, run-update_each,
}

-- The state of PatchOptions around ExternalInfo.
abbrev pub on_external : {A : Type 0} → Exec (Dict String) A → Exec PatchOptions A
on_external m opt =
    let (r, external) = m opt.external_info in (r, record opt { external_info = external })

module _ (polaris_grpc polaris_config_grpc : String) (plugin_config_map : Outcome (Dict String))
    (render : String → Dict String → Outcome String) (unmarshal : String → Dict String × Bool) where
  -- PatchContainer; each element of External is replaced by the container that is made of it.
  unfoldable pub java_patch_container :
      PatchType
      → String
      → List Container
      → List Container
      → Exec PatchOptions (List (Operation Container) × List Container)
  java_patch_container patch_remove base_path source external =
      pure (patch_container patch_remove base_path source external, external)
  java_patch_container patch_add base_path source external = λ opt.
      (on_external (
            handle_all_added polaris_grpc polaris_config_grpc plugin_config_map render unmarshal opt
              external)
          >>= λ added. pure (patch_container patch_add base_path source added, added))
        opt
  java_patch_container patch_update base_path source external =
      update_container unmarshal base_path >>= λ updates. pure (updates, external)

  unfoldable pub java_builder : PodPatchBuilder
  java_builder = record {
    patch_container = java_patch_container;
    patch_volumes = λ t base_path source external. pure (patch_volumes t base_path source external);
    patch_image_pull_secrets =
        λ t base_path source external. pure (patch_image_pull_secrets t base_path source external);
  }

  pub java_builder-IsBase : IsBase java_builder
  unfolding java_builder
  java_builder-IsBase = (λ t p s e. refl, λ t p s e. refl)

value : {A : Type 0} → A → Outcome A → A
value d (ok a) = a
value d (err x) = d
value d panic = d

-- Nothing is taken out of a list in which nothing is named.
remove_from-none :
    {A : Type 0} (name : A → String) (removed : List A) (base : String) (i : ℕ) (xs : List A)
    → any (is_named name removed) xs ≡ false
    → remove_from name removed base i xs ≡ []
unfolding remove_from
remove_from-none name removed base i [] h = refl
remove_from-none name removed base i (x ∷ xs) h =
    let here : is_named name removed x ≡ false = ground (arith, h) in
    let later : any (is_named name removed) xs ≡ false = ground (arith, h) in
    rw (here, remove_from-none name removed base (suc i) xs later) refl

module _ (unmarshal : String → Dict String × Bool) where
  -- What choosing the version leaves for the loop.
  IsChosen : PatchOptions → String → PatchOptions → Type 0
  IsChosen opt version opt' =
      FitsRequest unmarshal opt version opt'.external_info
      × (opt'.pod.containers ≡ opt.pod.containers)
      × (lookup annotation_key_java_agent_plugin_config opt'.pod.annotations
          ≡ lookup annotation_key_java_agent_plugin_config opt.pod.annotations)
      × (get_default_properties opt' ≡ get_default_properties opt)

  choose_version-IsChosen :
      (opt : PatchOptions)
      → (choose_version unmarshal opt ≡ (panic, opt))
        ⊎ ((version : String) × (opt' : PatchOptions) × (choose_version unmarshal opt
              ≡ (ok version, opt'))
            × IsChosen opt version opt')
  unfolding choose_version IsChosen update_env get_default_properties is_set_true index
      is_old_version
  choose_version-IsChosen opt = elim (Bool-cases (asked_version opt == "")) [
    | inl empty ↦ elim (Bool-cases opt.pod.has_annotations) [
      | inl there ↦ inr (
        "latest",
        with_annotation annotation_key_java_agent_version "latest" opt,
        rw (empty, there) refl,
        (
          λ properties envs. rw ((eq_iff (asked_version opt) "").0 empty) refl,
          refl,
          lookup-insert annotation_key_java_agent_version annotation_key_java_agent_plugin_config
              "latest" opt.pod.annotations,
          simp (lookup-insert),
        ),
      )
      | inr absent ↦ inl (rw (empty, absent) refl)
    ]
    | inr asked ↦ inr (
      asked_version opt,
      record opt {
        external_info =
            insert annotation_key_java_agent_version (asked_version opt) opt.external_info;
      },
      rw asked refl,
      (
        λ properties envs. elim (Bool-cases (is_old_version (asked_version opt))) [
          | inl old ↦ rw old (
              ap (λ v. with_java_options (old_active_java_agent_cmd (or_empty v)) "" envs)
                (lookup-insert annotation_key_java_agent_version annotation_key_java_agent_version
                  (asked_version opt) opt.external_info))
          | inr new ↦ rw new refl
        ],
        refl,
        refl,
        refl,
      ),
    )
  ]

  abbrev loop : String → String → Exec PatchOptions (List (Operation Container))
  loop base_path version = gets (λ opt.
      update_each unmarshal (lookup annotation_key_java_agent_plugin_config opt.pod.annotations)
        version opt.external_info (get_default_properties opt) base_path 0 opt.pod.containers)

  -- The operations of updateContainer are those of the loop, for a version that fits the request.
  Updates : String → PatchOptions → List (Operation Container) → Type 0
  Updates base_path opt updates =
      (version : String) × (external : Dict String) × FitsRequest unmarshal opt version external
      × (update_each unmarshal (lookup annotation_key_java_agent_plugin_config opt.pod.annotations)
            version external (get_default_properties opt) base_path 0 opt.pod.containers
          ≡ updates)

  update_container-Updates :
      (base_path : String) (opt : PatchOptions) (updates : List (Operation Container))
      → (update_container unmarshal base_path opt).0 ≡ ok updates
      → Updates base_path opt updates
  unfolding update_container Updates IsChosen value
  update_container-Updates base_path opt updates e = elim (choose_version-IsChosen opt) [
    | inl crashed ↦
        let impossible = sym (ap (λ r. (continue r.0 (loop base_path) r.1).0) crashed) ∙ e in
        absurd (ground (arith, impossible))
    | inr (version, opt', chosen, (fits, containers, config, properties)) ↦ (
      version,
      opt'.external_info,
      fits,
      sym (λ i.
            update_each unmarshal (config i) version opt'.external_info (properties i) base_path 0
              (containers i))
          ∙ ap (value []) (sym (ap (λ r. (continue r.0 (loop base_path) r.1).0) chosen) ∙ e),
    )
  ]

on_updates :
    (r : Outcome (List (Operation Container)) × PatchOptions) (external left : List Container)
    (updates : List (Operation Container))
    → (continue {B = List (Operation Container) × List Container} r.0
        (λ us. pure (us, external))
        r.1).0
      ≡ ok (updates, left)
    → r.0 ≡ ok updates
unfolding value
on_updates (ok us, opt) external left updates e =
    let nothing : List (Operation Container) × List Container = ([], []) in
    ap (λ o. ok (value nothing o).0) e
on_updates (err x, opt) external left updates e = absurd (ground arith)
on_updates (panic, opt) external left updates e = absurd (ground arith)

-- When no container of the pod has the name of one of an earlier injection, the operations on its
-- containers are not refused. The added ones come last, and each of the pod's own gets the mount of the
-- agent and, in JAVA_TOOL_OPTIONS after the text that it had, the agent's command: for a version of the
-- old ones that an annotation asks for, with this version in its path, and otherwise with the settings
-- as options, in which those of the annotation win over those that the pod's other annotations turn on.
-- The rest of the container is as it was.
pub run-java_patch_container :
    (polaris_grpc polaris_config_grpc : String) (plugin_config_map : Outcome (Dict String))
    (render : String → Dict String → Outcome String) (unmarshal : String → Dict String × Bool)
    (opt : PatchOptions) (first : Container) (others : List Container) (added left : List Container)
    (updates : List (Operation Container))
    → opt.pod.containers ≡ first ∷ others
    → any (is_named container_name opt.prev_status.containers) (first ∷ others) ≡ false
    → (java_patch_container polaris_grpc polaris_config_grpc plugin_config_map render unmarshal
        patch_update "/spec/containers"
        (first ∷ others)
        added
        opt).0
      ≡ ok (updates, left)
    → (injected : List Container) × (Option.map contents (
          run
            (patch_container patch_remove "/spec/containers"
                (first ∷ others)
                opt.prev_status.containers
              ++ (patch_container patch_add "/spec/containers" (first ∷ others) added ++ updates))
            (member (first ∷ others)))
        ≡ some (injected ++ map (with_account_mount (account_mount none (first ∷ others))) added))
      × Pointwise (HasAgent unmarshal opt) (first ∷ others) injected
unfolding java_patch_container Updates patch_container remove_items add_containers
run-java_patch_container grpc config_grpc config_map render unmarshal opt first others added left
      updates are unnamed e =
    let containers = first ∷ others in
    let added' = map (with_account_mount (account_mount none containers)) added in
    let config = lookup annotation_key_java_agent_plugin_config opt.pod.annotations in
    let properties = get_default_properties opt in
    let returned =
      on_updates (update_container unmarshal "/spec/containers" opt) added left updates e in
    let (version, external, fits, u) =
      update_container-Updates unmarshal "/spec/containers" opt updates returned in
    let made =
      ap (update_each unmarshal config version external properties "/spec/containers" 0) (sym are)
      ∙ u in
    (
      updated_each unmarshal config version external properties containers,
      rw
          (
            remove_from-none container_name opt.prev_status.containers "/spec/containers" 0
                containers unnamed,
            run-append (add_each "/spec/containers" false added') updates (some containers),
            run-add_each "/spec/containers" containers added',
            ← made,
          )
          (ap (Option.map contents) (
            run-update_each unmarshal config version external properties "/spec/containers" []
              containers added' 0 refl)),
      updated_each-HasAgent unmarshal opt version external properties containers fits (λ k. refl),
    )
