-- ===== src/Tests/Admission.antt =====
-- Answers of the webhook at concrete inputs.
use polaris_controller.Common.{String, ◌≡◌, refl, Bool, false, none, [], ◌∷◌}
use polaris_controller.Common.Dict.{Dict, index, lookup}
use polaris_controller.Common.Outcome.{Outcome, ok}
use polaris_controller.Util.Names.{sidecar_for_java_agent, parse_sidecar_mode_name}
use polaris_controller.Inject.Options.{SidecarInjectionSpec}
use polaris_controller.Inject.Owner.{Workload}
use polaris_controller.Inject.PodData.{PodDataInfo}
use polaris_controller.Inject.Admission.{
  AdmissionResponse, inject_v1, check_pod_data, get_pod_patch, patch_options,
}
use polaris_controller.Inject.Admission.Required.{IsAnswer, inject_v1-IsAnswer}
use polaris_controller.Inject.Serve.{other_kind, http_error, null, serve_inject}
use polaris_controller.Inject.Validate.{validate_annotations}
use polaris_controller.Inject.{
  check_selectors, decide, determine_injection_requirement, evaluate_selectors,
  is_ignored_namespace, lower_equals, parse_injection_annotation, require_inject,
}
use polaris_controller.Inject.Concurrency.{apply_concurrency}
use polaris_controller.Inject.Webhook.{create_patch, patch_with}
use polaris_controller.Inject.JavaAgent.Builder.{java_builder, java_patch_container}
use polaris_controller.Inject.JavaAgent.Init.{handle_all_added}
use polaris_controller.Inject.JavaAgent.{update_container, choose_version}
use polaris_controller.Tests.Pods.{template_config}
use polaris_controller.Tests.Agent.{app_pod, agent_spec, sample_builders}

abbrev app_info : PodDataInfo
app_info = record {
  pod_object = app_pod;
  inject_mode = sidecar_for_java_agent;
  inject_template_config = template_config;
  inject_template_version = "v1";
  template_annotations = [];
}

abbrev no_json : Dict String → String
no_json m = "{}"

abbrev no_cidr : String → Bool
no_cidr s = false

abbrev filled : PodDataInfo → Dict String → Workload → Outcome SidecarInjectionSpec
filled p annotations workload = ok agent_spec

abbrev refused : AdmissionResponse
refused = record { allowed = false; patch = none; message = none }

abbrev response_of : Outcome AdmissionResponse → AdmissionResponse
response_of (ok r) = r
response_of _ = refused

abbrev app_response : AdmissionResponse
app_response =
    response_of (
      inject_v1 no_json no_cidr (λ text. none) (λ s. "status") filled sample_builders (ok app_info))

app_pod_is_answered :
    inject_v1 no_json no_cidr (λ text. none) (λ s. "status") filled sample_builders (ok app_info)
    ≡ ok app_response
unfolding apply_concurrency check_pod_data check_selectors create_patch decide
    determine_injection_requirement evaluate_selectors get_pod_patch index inject_v1
    is_ignored_namespace lookup lower_equals parse_injection_annotation parse_sidecar_mode_name
    patch_options patch_with require_inject validate_annotations java_builder java_patch_container
    handle_all_added update_container choose_version
app_pod_is_answered = refl

app_pod_is_admitted : IsAnswer no_cidr app_info app_response
app_pod_is_admitted =
    inject_v1-IsAnswer no_json no_cidr (λ text. none) (λ s. "status") filled sample_builders
      app_info app_response app_pod_is_answered

other_kind_writes_twice :
    serve_inject no_json no_cidr
      (λ text. none)
      (λ s. "status")
      filled
      sample_builders
      (λ body. other_kind)
      "{}"
      "application/json"
    ≡ ok (http_error 400 ∷ null ∷ [])
unfolding serve_inject
other_kind_writes_twice = refl
