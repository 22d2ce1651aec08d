-- ===== src/Inject.antt =====
-- pkg/inject/pkg/kube/inject/inject.go and common.go: whether a pod gets a sidecar, and which one.
-- The compilation of label selectors is Kubernetes's: a selector stands here for its result, `none`
-- where LabelSelectorAsSelector returns an error.
pub mod Objects
pub mod Annotations
pub mod Patch
pub mod Options
pub mod JavaAgent
pub mod Webhook
pub mod Owner
pub mod Validate
pub mod Concurrency
pub mod PodData
pub mod Admission
pub mod Serve
pub mod TemplateFuncs
pub mod Mesh
pub mod Requirement
pub mod Mode
use Prim.Native.Char.{code}
use polaris_controller.Common.{
  ℕ, ◌+◌, String, Bool, true, false, ◌&&◌, ◌==◌, not, eqb, leb, if◌then◌else◌, Option, none, some,
  List, [], ◌∷◌, any,
}
use polaris_controller.Common.Dict.{Dict, lookup, index}
use polaris_controller.Kube.{NamespaceObject}
use polaris_controller.Inject.Objects.{Pod}
use polaris_controller.Util.Names.{
  SidecarMode, sidecar_for_unknown, sidecar_for_mesh, sidecar_for_dns, sidecar_for_java_agent,
  parse_sidecar_mode,
}

-- A compiled labels.Selector: Empty() and Matches.
pub record Selector : Type 0 where
  pub empty : Bool
  pub matches : Dict String → Bool

-- type InjectionPolicy string
abbrev pub InjectionPolicy : Type 0
InjectionPolicy = String

abbrev pub injection_policy_enabled : InjectionPolicy
injection_policy_enabled = "enabled"

abbrev pub injection_policy_disabled : InjectionPolicy
injection_policy_disabled = "disabled"

-- The fields of TemplateConfig that the decision reads.
pub record TemplateConfig : Type 0 where
  pub policy : InjectionPolicy
  pub never_inject_selector : List (Option Selector)
  pub always_inject_selector : List (Option Selector)

abbrev pub inject_admission_key : String
inject_admission_key = "polarismesh.cn/inject"

abbrev pub sidecar_inject : String
sidecar_inject = "sidecar.polarismesh.cn/inject"

-- metav1.NamespaceSystem and metav1.NamespacePublic
abbrev pub ignored_namespaces : List String
ignored_namespaces = "kube-system" ∷ "kube-public" ∷ []

unfoldable pub is_ignored_namespace : String → Bool
is_ignored_namespace namespace = any (λ ignored. namespace == ignored) ignored_namespaces

-- The code point of a character in lower case, for comparisons with ASCII letters: beside the
-- capitals of ASCII, U+0130 and U+212A have such a letter.
abbrev lower : ℕ → ℕ
lower c =
    if leb b'A' c && leb c b'Z'
    then c + 32
    else if eqb c 304
    then b'i'
    else if eqb c 8490
    then b'k'
    else c

-- strings.ToLower(s) == word, for a word of lower case ASCII letters
unfoldable pub lower_equals : String → String → Bool
lower_equals String.[] String.[] = true
lower_equals String.[] (String.◌∷◌ d w) = false
lower_equals (String.◌∷◌ c s) String.[] = false
lower_equals (String.◌∷◌ c s) (String.◌∷◌ d w) =
    let rest = lower_equals s w in if eqb (lower (code c)) (code d) then rest else false

abbrev pub yes_words : List String
yes_words = "y" ∷ "yes" ∷ "true" ∷ "on" ∷ "enable" ∷ "enabled" ∷ []

abbrev pub no_words : List String
no_words = "n" ∷ "no" ∷ "false" ∷ "off" ∷ "disable" ∷ "disabled" ∷ []

-- The value that counts: that of the new key, if it is there, or else that of the old one.
injection_value : Option String → Option String → String
injection_value (some new_flag) old = new_flag
injection_value none (some flag) = flag
injection_value none none = ""

-- parseInjectionAnnotation: whether injection is requested, and whether the default is used.
unfoldable pub parse_injection_annotation : Dict String → Bool × Bool
unfolding injection_value
parse_injection_annotation annotations =
    let value =
      injection_value (lookup inject_admission_key annotations)
        (lookup sidecar_inject annotations) in
    if any (lower_equals value) yes_words
    then (true, false)
    else if any (lower_equals value) no_words
    then (false, false)
    else (false, true)

abbrev pub selects : Dict String → Option Selector → Bool
selects labels none = false
selects labels (some ls) = not ls.empty && ls.matches labels

unfoldable pub check_selectors : Dict String → Bool → List (Option Selector) → Bool × Bool
check_selectors labels allow_inject [] = (false, false)
check_selectors labels allow_inject (selector ∷ selectors) =
    let rest = check_selectors labels allow_inject selectors in
    if selects labels selector then (allow_inject, true) else rest

unfoldable pub evaluate_selectors : Dict String → TemplateConfig → Bool × Bool
evaluate_selectors labels config =
    let never = check_selectors labels false config.never_inject_selector in
    let always = check_selectors labels true config.always_inject_selector in
    if never.1 then (never.0, false) else if always.1 then (always.0, false) else (false, true)

unfoldable pub determine_injection_requirement : InjectionPolicy → Bool → Bool → Bool
determine_injection_requirement policy use_default requested =
    if policy == injection_policy_enabled
    then (if use_default then true else requested)
    else if policy == injection_policy_disabled
    then (if use_default then false else requested)
    else false

abbrev pub is_network_mode : SidecarMode → Bool
is_network_mode sidecar_for_mesh = true
is_network_mode sidecar_for_dns = true
is_network_mode sidecar_for_java_agent = false
is_network_mode sidecar_for_unknown = false

-- The annotations come first, the labels second, the policy last.
unfoldable pub decide : InjectionPolicy → Bool × Bool → Bool × Bool → Bool
decide policy by_annotation by_labels =
    let chosen = if by_annotation.1 then by_labels else by_annotation in
    determine_injection_requirement policy chosen.1 chosen.0

unfoldable pub require_inject : SidecarMode → TemplateConfig → Pod → Bool
require_inject mode config pod =
    if pod.host_network && is_network_mode mode
    then false
    else if is_ignored_namespace pod.namespace
    then false
    else decide config.policy (parse_injection_annotation pod.annotations)
        (evaluate_selectors pod.labels config)

abbrev pub inject_java_agent : String
inject_java_agent = "polarismesh.cn/javaagent"

abbrev pub sidecar_envoy_inject_key : String
sidecar_envoy_inject_key = "sidecar.polarismesh.cn/openOnDemand"

abbrev pub polaris_sidecar_mode : String
polaris_sidecar_mode = "polarismesh.cn/sidecar-mode"

abbrev pub polaris_sidecar_mode_label : String
polaris_sidecar_mode_label = "polaris-sidecar-mode"

is_on : Option String → Bool
is_on none = false
is_on (some val) = val == "true"

mode_of : Option String → SidecarMode → SidecarMode
mode_of none default_mode = default_mode
mode_of (some val) default_mode = parse_sidecar_mode val

-- getNamespaceInjectMode, with the namespace as the client returns it.
unfoldable pub get_namespace_inject_mode : Option NamespaceObject → SidecarMode → SidecarMode
unfolding mode_of
get_namespace_inject_mode none default_mode = default_mode
get_namespace_inject_mode (some ns) default_mode =
    mode_of (lookup polaris_sidecar_mode_label ns.labels) default_mode

-- getInjectMode: the mode, and the value that setMeshEnvoyConfig writes, if it is called.
unfoldable pub get_inject_mode :
    Dict String → Option NamespaceObject → SidecarMode → SidecarMode × Option String
unfolding is_on mode_of
get_inject_mode annotations ns default_mode =
    if is_on (lookup inject_java_agent annotations)
    then (sidecar_for_java_agent, none)
    else if is_on (lookup sidecar_envoy_inject_key annotations)
    then (sidecar_for_mesh, some (index sidecar_envoy_inject_key annotations))
    else (
      mode_of (lookup polaris_sidecar_mode annotations) (get_namespace_inject_mode ns default_mode),
      none,
    )
