-- ===== src/Inject/Requirement.antt =====
-- What requireInject asks of a pod (pkg/inject/pkg/kube/inject/inject.go).
use polaris_controller.Common.{
  String, ◌≡◌, ◌↔◌, ◌⊎◌, refl, Bool, true, false, ◌&&◌, if◌then◌else◌, Option, List, [], ◌∷◌, any,
  arith, eq_iff, Bool-cases, inl, inr,
}
use polaris_controller.Common.Dict.{Dict}
use polaris_controller.Util.Names.{SidecarMode}
use polaris_controller.Inject.Objects.{Pod}
use polaris_controller.Inject.{
  Selector, TemplateConfig, injection_policy_enabled, injection_policy_disabled, selects,
  is_ignored_namespace, parse_injection_annotation, check_selectors, evaluate_selectors,
  determine_injection_requirement, is_network_mode, require_inject, decide,
}

check_selectors-any :
    (labels : Dict String) (allow : Bool) (selectors : List (Option Selector))
    → check_selectors labels allow selectors
      ≡ (if any (selects labels) selectors then (allow, true) else (false, false))
unfolding check_selectors
check_selectors-any labels allow [] = refl
check_selectors-any labels allow (s ∷ selectors) = elim (Bool-cases (selects labels s)) [
  | inl here ↦ rw here refl
  | inr other ↦ rw (other, check_selectors-any labels allow selectors) refl
]

-- The labels decide for injection: no selector that refuses the pod, and one that asks for it, or
-- the policy "enabled".
abbrev pub LabelsAsk : Pod → TemplateConfig → Type 0
LabelsAsk pod config =
    (any (selects pod.labels) config.never_inject_selector ≡ false)
    × ((any (selects pod.labels) config.always_inject_selector ≡ true)
        ⊎ (config.policy ≡ injection_policy_enabled))

-- The annotations ask for injection, or leave it to the labels.
abbrev pub Asks : Pod → TemplateConfig → Type 0
Asks pod config =
    (parse_injection_annotation pod.annotations ≡ (true, false))
    ⊎ ((parse_injection_annotation pod.annotations ≡ (false, true)) × LabelsAsk pod config)

evaluate_selectors-any :
    (labels : Dict String) (config : TemplateConfig)
    → let never = any (selects labels) config.never_inject_selector in
      let always = any (selects labels) config.always_inject_selector in
      evaluate_selectors labels config
      ≡ (if never then (false, false) else if always then (true, false) else (false, true))
unfolding evaluate_selectors
evaluate_selectors-any labels config =
    rw
      (
        check_selectors-any labels false config.never_inject_selector,
        check_selectors-any labels true config.always_inject_selector,
      )
      (elim (Bool-cases (any (selects labels) config.never_inject_selector)) [
        | inl n ↦ rw n refl
        | inr n ↦ elim (Bool-cases (any (selects labels) config.always_inject_selector)) [
          | inl a ↦ rw (n, a) refl
          | inr a ↦ rw (n, a) refl
        ]
      ])

answers :
    (on off : Bool)
    → let answer : Bool × Bool =
        if on then (true, false) else if off then (false, false) else (false, true) in
      (answer ≡ (true, false)) ⊎ (answer ≡ (false, false)) ⊎ (answer ≡ (false, true))
answers true off = inl refl
answers false true = inr (inl refl)
answers false false = inr (inr refl)

parse-cases :
    (annotations : Dict String)
    → (parse_injection_annotation annotations ≡ (true, false))
      ⊎ (parse_injection_annotation annotations ≡ (false, false))
      ⊎ (parse_injection_annotation annotations ≡ (false, true))
unfolding parse_injection_annotation
parse-cases annotations = answers _ _

decide_iff :
    (policy : String) (by_annotation : Bool × Bool) (never always : Bool)
    → (by_annotation ≡ (true, false))
      ⊎ (by_annotation ≡ (false, false))
      ⊎ (by_annotation ≡ (false, true))
    → (decide policy by_annotation
          (if never then (false, false) else if always then (true, false) else (false, true))
        ≡ true)
      ↔ (((policy ≡ injection_policy_enabled) ⊎ (policy ≡ injection_policy_disabled))
          × ((by_annotation ≡ (true, false))
              ⊎ ((by_annotation ≡ (false, true))
                  × ((never ≡ false) × ((always ≡ true) ⊎ (policy ≡ injection_policy_enabled))))))
unfolding decide determine_injection_requirement
decide_iff policy by_annotation never always h = elim h [
  | inl e ↦ rw e (
      ground
        (arith, eq_iff policy injection_policy_enabled, eq_iff policy injection_policy_disabled))
  | inr (inl e) ↦ rw e (
      ground
        (arith, eq_iff policy injection_policy_enabled, eq_iff policy injection_policy_disabled))
  | inr (inr e) ↦ rw e (elim (Bool-cases never) [
    | inl n ↦ rw n (
        ground
          (arith, eq_iff policy injection_policy_enabled, eq_iff policy injection_policy_disabled))
    | inr n ↦ elim (Bool-cases always) [
      | inl a ↦
          rw (n, a)
            (ground (
              arith,
              eq_iff policy injection_policy_enabled,
              eq_iff policy injection_policy_disabled,
            ))
      | inr a ↦
          rw (n, a)
            (ground (
              arith,
              eq_iff policy injection_policy_enabled,
              eq_iff policy injection_policy_disabled,
            ))
    ]
  ])
]

-- A pod is injected exactly if the policy is "enabled" or "disabled", the pod is not on the host's
-- network in a mode that needs its own, its namespace is not ignored, and its annotations ask for
-- injection, or decide nothing (they are missing, or hold none of the words for yes and no) while its
-- labels ask: no selector refuses it, and one asks for it or the policy is "enabled".
pub require_inject_iff :
    (mode : SidecarMode) (config : TemplateConfig) (pod : Pod)
    → (require_inject mode config pod ≡ true) ↔ (
        ((pod.host_network && is_network_mode mode) ≡ false)
        × (is_ignored_namespace pod.namespace ≡ false)
        × ((config.policy ≡ injection_policy_enabled) ⊎ (config.policy ≡ injection_policy_disabled))
        × Asks pod config)
unfolding require_inject
require_inject_iff mode config pod = elim (Bool-cases (pod.host_network && is_network_mode mode)) [
  | inl host ↦ rw host (ground arith)
  | inr host ↦ elim (Bool-cases (is_ignored_namespace pod.namespace)) [
    | inl ignored ↦ rw (host, ignored) (ground arith)
    | inr seen ↦
        rw (host, seen, evaluate_selectors-any pod.labels config)
          (let core =
              decide_iff config.policy (parse_injection_annotation pod.annotations)
                (any (selects pod.labels) config.never_inject_selector)
                (any (selects pod.labels) config.always_inject_selector)
                (parse-cases pod.annotations) in
            (
              λ h. (refl, refl, (core.0 h).0, (core.0 h).1),
              λ (_, _, valid, asks). core.1 (valid, asks),
            ))
  ]
]
