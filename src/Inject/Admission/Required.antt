-- ===== src/Inject/Admission/Required.antt =====
-- Which pods the webhook patches, and what it answers otherwise (base.go, webhook.go).
use mathlib.Core.Path.{subst}
use polaris_controller.Common.{
  String, ◌≡◌, ◌⊎◌, refl, Bool, true, false, Option, none, some, List, Bool-cases, inl, inr,
}
use polaris_controller.Common.Dict.{Dict}
use polaris_controller.Common.Outcome.{Error, Outcome, ok, err, panic}
use polaris_controller.Inject.{require_inject}
use polaris_controller.Inject.Options.{SidecarInjectionStatus, SidecarInjectionSpec}
use polaris_controller.Inject.Owner.{Workload}
use polaris_controller.Inject.Validate.{validate_annotations}
use polaris_controller.Inject.Webhook.{PodPatchBuilder, PatchOperation}
use polaris_controller.Inject.PodData.{PodDataInfo}
use polaris_controller.Inject.Admission.{
  AdmissionResponse, fits_dns, check_pod_data, if_required, if_passed, get_pod_patch, respond,
  respond_to, inject_v1,
}

-- The pod passes every check.
abbrev pub IsReady : (String → Bool) → PodDataInfo → Type 0
IsReady is_cidr p =
    (validate_annotations is_cidr p.inject_mode p.pod_object.annotations ≡ true)
    × (fits_dns p.inject_mode p.pod_object.dns_policy ≡ true)
    × (require_inject p.inject_mode p.inject_template_config p.pod_object ≡ true)

abbrev pub IsRefusal : AdmissionResponse → Type 0
IsRefusal r = (r.allowed ≡ false) × (r.patch ≡ none) × ((e : Error) × (r.message ≡ some e))

abbrev pub IsAdmission : AdmissionResponse → Type 0
IsAdmission r = (r.allowed ≡ true) × (r.message ≡ none)

-- The answer to a pod with an invalid annotation, to one that is left as it is, and to one that passes
-- every check.
abbrev pub IsAnswer : (String → Bool) → PodDataInfo → AdmissionResponse → Type 0
IsAnswer is_cidr p r =
    ((validate_annotations is_cidr p.inject_mode p.pod_object.annotations ≡ false) × IsRefusal r)
    ⊎ (((validate_annotations is_cidr p.inject_mode p.pod_object.annotations ≡ true)
          × ((fits_dns p.inject_mode p.pod_object.dns_policy ≡ false)
              ⊎ (require_inject p.inject_mode p.inject_template_config p.pod_object ≡ false))
          × IsAdmission r
          × (r.patch ≡ none))
        ⊎ (IsReady is_cidr p × (IsRefusal r ⊎ IsAdmission r)))

module _ (quoted_json : Dict String → String) (is_cidr : String → Bool)
    (unmarshal : String → Option SidecarInjectionStatus) (marshal : SidecarInjectionStatus → String)
    (fill_template : PodDataInfo → Dict String → Workload → Outcome SidecarInjectionSpec)
    (builders : Dict PodPatchBuilder) where
  Answered : PodDataInfo → Outcome AdmissionResponse → Type 0
  Answered p (ok r) = IsAnswer is_cidr p r
  Answered p (err e) = ⊥
  Answered p panic = Unit

  answered : Outcome (Option (List PatchOperation)) → Outcome AdmissionResponse
  answered = respond quoted_json is_cidr unmarshal marshal fill_template builders

  any_patch :
      (p : PodDataInfo)
      → IsReady is_cidr p
      → (r : Outcome (Option (List PatchOperation))) → Answered p (answered r)
  unfolding Answered answered respond
  any_patch p ready (ok patch) = inr (inr (ready, inr (refl, refl)))
  any_patch p ready (err e) = inr (inr (ready, inl (refl, refl, (e, refl))))
  any_patch p ready panic = tt

  get_pod_patch-Answered :
      (p : PodDataInfo)
      → Answered p
          (answered (get_pod_patch quoted_json is_cidr unmarshal marshal fill_template builders p))
  unfolding get_pod_patch if_passed if_required check_pod_data Answered answered respond
  get_pod_patch-Answered p =
      elim (Bool-cases (validate_annotations is_cidr p.inject_mode p.pod_object.annotations)) [
        | inl valid ↦ elim (Bool-cases (fits_dns p.inject_mode p.pod_object.dns_policy)) [
          | inl fits ↦
              elim (Bool-cases
                (require_inject p.inject_mode p.inject_template_config p.pod_object)) [
                  | inl required ↦
                      rw (valid, fits, required) (any_patch p (valid, fits, required) _)
                  | inr not_required ↦
                      rw (valid, fits, not_required)
                        (inr (inl (valid, inr not_required, (refl, refl), refl)))
                ]
          | inr unfit ↦ rw (valid, unfit) (inr (inl (valid, inl unfit, (refl, refl), refl)))
        ]
        | inr invalid ↦ rw invalid (inl (invalid, (refl, refl, (_, refl))))
      ]

  -- The answer to a pod whose data could be read, where the code returns one. A pod with an annotation
  -- whose value its mode does not accept is refused with an error and without a patch. Any other pod
  -- whose DNS policy the mesh cannot work with, or that is not to be injected, is admitted as it came.
  -- A pod that passes every check is admitted, or refused with an error and without a patch.
  pub inject_v1-IsAnswer :
      (p : PodDataInfo) (r : AdmissionResponse)
      → inject_v1 quoted_json is_cidr unmarshal marshal fill_template builders (ok p) ≡ ok r
      → IsAnswer is_cidr p r
  unfolding inject_v1 respond_to Answered answered
  inject_v1-IsAnswer p r e = subst (Answered p) e (get_pod_patch-Answered p)
