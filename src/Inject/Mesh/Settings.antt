-- ===== src/Inject/Mesh/Settings.antt =====
-- pkg/inject/pkg/kube/inject/apply/mesh/sidecar.go: the configuration of polaris-sidecar in an annotation,
-- and the variables that it sets.
use polaris_controller.Common.{
  ℕ, String, Bool, false, ◌==◌, any, if◌then◌else◌, Option, none, some, List, [], ◌∷◌,
}
use polaris_controller.Common.Dict.{Dict, insert}
use polaris_controller.Common.Int.{ℤ, pos}
use polaris_controller.Util.Text.{itoa}
use polaris_controller.Util.Names.{SidecarMode, sidecar_for_dns}

pub record DnsConfig : Type 0 where
  pub suffix : Option String
  pub ttl : Option ℤ

pub record RecurseConfig : Type 0 where
  pub enabled : Option Bool
  pub timeout : Option ℤ

pub record Location : Type 0 where
  pub region : Option String
  pub zone : Option String
  pub campus : Option String
  pub match_level : Option String

pub record LogOptions : Type 0 where
  pub output_level : Option String
  pub rotation_max_size : Option ℤ
  pub rotation_max_age : Option ℤ
  pub rotation_max_backups : Option ℤ

pub record SidecarConfig : Type 0 where
  pub recurse : Option RecurseConfig
  pub dns : Option DnsConfig
  pub location : Option Location
  pub log_options : Option LogOptions

abbrev pub match_levels : List String
match_levels = "region" ∷ "zone" ∷ "campus" ∷ []

abbrev pub log_levels : List String
log_levels = "debug" ∷ "info" ∷ "warn" ∷ "error" ∷ "fatal" ∷ []

-- config.x != nil && config.x.y != nil
abbrev pub field {ℓ} : {A B : Type ℓ} → Option A → (A → Option B) → Option B
field none f = none
field (some a) f = f a

-- The text of a number above zero.
positive_text : Option ℤ → Option String
positive_text (some (pos (ℕ.suc n))) = some (itoa (ℕ.suc n))
positive_text _ = none

one_of : List String → Option String → Option String
one_of words none = none
one_of words (some s) = if any (λ w. w == s) words then some s else none

only_false : Option Bool → Option String
only_false (some false) = some "false"
only_false _ = none

in_dns : SidecarMode → Option DnsConfig → Option DnsConfig
in_dns sidecar_for_dns dns = dns
in_dns _ dns = none

-- The assignments of fillEnv, in their order, each with the value that it is made with, if it is made.
unfoldable pub assignments : SidecarConfig → SidecarMode → List (String × Option String)
unfolding positive_text one_of only_false in_dns
assignments config mode =
    ("SIDECAR_DNS_SUFFIX", field (in_dns mode config.dns) (λ d. d.suffix))
    ∷ ("SIDECAR_DNS_TTL", field (in_dns mode config.dns) (λ d. positive_text d.ttl))
    ∷ ("SIDECAR_RECURSE_ENABLE", field config.recurse (λ r. only_false r.enabled))
    ∷ ("SIDECAR_RECURSE_TIMEOUT", field config.recurse (λ r. positive_text r.timeout))
    ∷ ("SIDECAR_REGION", field config.location (λ l. l.region))
    ∷ ("SIDECAR_ZONE", field config.location (λ l. l.zone))
    ∷ ("SIDECAR_CAMPUS", field config.location (λ l. l.campus))
    ∷ ("SIDECAR_NEARBY_MATCH_LEVEL", field config.location (λ l. one_of match_levels l.match_level))
    ∷ ("SIDECAR_LOG_LEVEL", field config.log_options (λ o. one_of log_levels o.output_level))
    ∷ (
      "SIDECAR_LOG_ROTATION_MAX_SIZE",
      field config.log_options (λ o. positive_text o.rotation_max_size),
    )
    ∷ (
      "SIDECAR_LOG_ROTATION_MAX_AGE",
      field config.log_options (λ o. positive_text o.rotation_max_age),
    )
    ∷ (
      "SIDECAR_LOG_ROTATION_MAX_BACKUPS",
      field config.log_options (λ o. positive_text o.rotation_max_backups),
    )
    ∷ []

unfoldable pub assign : Option String → String → Dict String → Dict String
assign none key env_map = env_map
assign (some v) key env_map = insert key v env_map

unfoldable pub assign_all : List (String × Option String) → Dict String → Dict String
unfolding assign
assign_all [] env_map = env_map
assign_all ((key, value) ∷ rest) env_map = assign_all rest (assign value key env_map)

-- fillEnv
unfoldable pub fill_env : Dict String → SidecarConfig → SidecarMode → Dict String
fill_env env_map config mode = assign_all (assignments config mode) env_map
