-- ===== src/Inject/Owner/Deployment.antt =====
-- The name of a Deployment from that of its ReplicaSet (common.go).
use Prim.Native.Char.{Char}
use text.Mathlib.TextLemmas.{
  nil-append, cons-append, cons-ne-nil, append_cancel_right, append-ne-nil_of_right_ne-nil,
}
use polaris_controller.Common.{
  String, ◌≡◌, ◌≢◌, refl, sym, ap, ◌∙◌, Bool, true, false, ◌==◌, eq_iff, eq_refl, if◌then◌else◌,
  arith, Bool-cases, inl, inr,
}
use polaris_controller.Common.Dict.{index}
use polaris_controller.Util.Text.{◌⋯◌}
use polaris_controller.Inject.Objects.{Pod}
use polaris_controller.Inject.Owner.{
  has_suffix, trim_suffix, find_controller_ref, pod_template_hash_label, is_deployment_replica_set,
  get_deployment_name, get_owner_meta_and_type,
}

longer : (c : Char) (d s : String) → String.◌∷◌ c (d ⋯ s) == s ≡ false
longer c d s = elim (Bool-cases (String.◌∷◌ c (d ⋯ s) == s)) [
  | inl equal ↦
      let same : String.◌∷◌ c (d ⋯ s) ≡ s = (eq_iff (String.◌∷◌ c (d ⋯ s)) s).0 equal in
      absurd (
        cons-ne-nil c d (
          append_cancel_right (String.◌∷◌ c d) "" s
            (cons-append c d s ∙ same ∙ sym (nil-append s))))
  | inr other ↦ other
]

trim_suffix_self : (suffix : String) → trim_suffix suffix suffix ≡ ""
unfolding trim_suffix
trim_suffix_self String.[] = refl
trim_suffix_self (String.◌∷◌ c s) = rw (eq_refl (String.◌∷◌ c s)) refl

trim_suffix-append : (d suffix : String) → trim_suffix (d ⋯ suffix) suffix ≡ d
unfolding trim_suffix
trim_suffix-append String.[] suffix =
    ap (λ s. trim_suffix s suffix) (nil-append suffix) ∙ trim_suffix_self suffix
trim_suffix-append (String.◌∷◌ c d) suffix =
    rw (cons-append c d suffix, longer c d suffix, trim_suffix-append d suffix) refl

has_suffix_self : (suffix : String) → has_suffix suffix suffix ≡ true
unfolding has_suffix
has_suffix_self String.[] = refl
has_suffix_self (String.◌∷◌ c s) = rw (eq_refl (String.◌∷◌ c s)) refl

either : (b : Bool) → (if b then true else true) ≡ true
either true = refl
either false = refl

has_suffix-append :
    (d s suffix : String) → has_suffix s suffix ≡ true → has_suffix (d ⋯ s) suffix ≡ true
unfolding has_suffix
has_suffix-append String.[] s suffix h = ap (λ t. has_suffix t suffix) (nil-append s) ∙ h
has_suffix-append (String.◌∷◌ c d) s suffix h =
    rw (cons-append c d s, has_suffix-append d s suffix h) (either (String.◌∷◌ c (d ⋯ s) == suffix))

not_equal : (s t : String) → s ≢ t → s == t ≡ false
not_equal s t h = ground (arith, h, eq_iff s t)

-- A pod whose controller is the ReplicaSet that Kubernetes names after a Deployment and the hash of
-- its pod template belongs to that Deployment, by its name, also when that has dashes of its own.
pub get_owner_meta_and_type-deployment :
    (pod : Pod) (deployment : String)
    → pod.generate_name ≢ ""
    → index pod_template_hash_label pod.labels ≢ ""
    → (find_controller_ref pod.owner_references).kind ≡ "ReplicaSet"
    → (find_controller_ref pod.owner_references).name
      ≡ deployment ⋯ "-" ⋯ index pod_template_hash_label pod.labels
    → get_owner_meta_and_type pod ≡ record {
      name = deployment;
      kind = "Deployment";
      api_version = (find_controller_ref pod.owner_references).api_version;
    }
unfolding get_owner_meta_and_type is_deployment_replica_set get_deployment_name
get_owner_meta_and_type-deployment pod deployment generated hashed kind named =
    let hash = index pod_template_hash_label pod.labels in
    let name = deployment ⋯ "-" ⋯ hash in
    let some_name : name == "" ≡ false =
      not_equal name ""
        (append-ne-nil_of_right_ne-nil deployment (append-ne-nil_of_right_ne-nil "-" hashed)) in
    rw
      (
        named,
        kind,
        not_equal pod.generate_name "" generated,
        some_name,
        not_equal hash "" hashed,
        has_suffix-append deployment ("-" ⋯ hash) hash
            (has_suffix-append "-" hash hash (has_suffix_self hash)),
        trim_suffix-append deployment ("-" ⋯ hash),
      )
      refl
