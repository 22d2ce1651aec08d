-- ===== src/Inject/Admission.antt =====
-- pkg/inject/pkg/kube/inject/base.go, pod.go and webhook.go: the answer to a request for admission. The
-- template of the sidecar, which text/template and YAML work out, and the decoder of requests are parameters;
-- v1 and v1beta1 are handled alike.
pub mod Required
use polaris_controller.Common.{
  String, Bool, true, false, ◌==◌, ◌||◌, if◌then◌else◌, Option, none, some, List, [], ◌∷◌,
}
use polaris_controller.Common.Dict.{Dict, lookup, insert, merge}
use polaris_controller.Common.Outcome.{Error, invalid_annotations, Outcome, ok, err, panic}
use polaris_controller.Util.Names.{SidecarMode, sidecar_for_mesh}
use polaris_controller.Inject.{require_inject, lower_equals, sidecar_envoy_inject_key}
use polaris_controller.Inject.Objects.{Pod}
use polaris_controller.Inject.PodData.{PodDataInfo}
use polaris_controller.Inject.Options.{SidecarInjectionStatus, SidecarInjectionSpec, PatchOptions}
use polaris_controller.Inject.Owner.{Workload, get_owner_meta_and_type}
use polaris_controller.Inject.Validate.{validate_annotations}
use polaris_controller.Inject.Concurrency.{apply_concurrency}
use polaris_controller.Inject.Webhook.{PodPatchBuilder, PatchOperation, create_patch}
use polaris_controller.Inject.Webhook.Status.{injection_status, add_inject_status_annotation}

abbrev pub polaris_tls_mode : String
polaris_tls_mode = "polarismesh.cn/tls-mode"

abbrev pub sidecar_namespace_name : String
sidecar_namespace_name = "sidecar.polarismesh.cn/serviceNamespace"

abbrev pub sidecar_service_name : String
sidecar_service_name = "sidecar.polarismesh.cn/serviceName"

abbrev pub sidecar_envoy_metadata : String
sidecar_envoy_metadata = "sidecar.polarismesh.cn/envoyMetadata"

-- The mode of TLS that an annotation asks for: an unknown one is "none".
tls_mode : Option String → String
tls_mode none = "none"
tls_mode (some mode) =
    if lower_equals mode "strict"
    then "strict"
    else if lower_equals mode "permissive"
    then "permissive"
    else "none"

abbrev is_missing : Option String → Bool
is_missing none = true
is_missing (some value) = false

copy_if_there : String → Option String → Dict String → Dict String
copy_if_there key none m = m
copy_if_there key (some value) m = insert key value m

or_else : Option String → String → String
or_else none other = other
or_else (some value) other = value

abbrev is_empty_map : Dict String → Bool
is_empty_map [] = true
is_empty_map (kv ∷ m) = false

-- The injected annotations and envoyMetadata, as they grow.
pub record Injected : Type 0 where
  pub inject_annotations : Dict String
  pub envoy_metadata : Dict String

abbrev nothing_else : Dict String → Injected
nothing_else injected = record { inject_annotations = injected; envoy_metadata = [] }

abbrev in_both : String → String → Injected → Injected
in_both key value i = record {
  inject_annotations = insert key value i.inject_annotations;
  envoy_metadata = insert key value i.envoy_metadata;
}

with_tls : Pod → Injected → Injected
unfolding tls_mode copy_if_there
with_tls pod i =
    if is_empty_map pod.annotations
    then i
    else let moded =
        in_both polaris_tls_mode (tls_mode (lookup polaris_tls_mode pod.annotations)) i in
      record moded {
        envoy_metadata =
            copy_if_there sidecar_envoy_inject_key (lookup sidecar_envoy_inject_key pod.annotations)
              moded.envoy_metadata;
      }

with_namespace : Pod → Injected → Injected
with_namespace pod i =
    if is_missing (lookup sidecar_namespace_name pod.annotations)
    then in_both sidecar_namespace_name pod.namespace i
    else i

with_service : Pod → String → Option String → Injected → Injected
unfolding or_else
with_service pod workload none i =
    in_both sidecar_service_name (or_else (lookup "app" pod.labels) workload) i
with_service pod workload (some svc_name) i = record i {
  envoy_metadata = insert sidecar_service_name svc_name i.envoy_metadata;
}

module _ (quoted_json : Dict String → String) where
  mesh_annotations : Pod → String → Dict String → Dict String
  unfolding with_tls with_namespace with_service
  mesh_annotations pod workload injected =
      let i =
        with_service pod workload (lookup sidecar_service_name pod.annotations)
          (with_namespace pod (with_tls pod (nothing_else injected))) in
      insert sidecar_envoy_metadata (quoted_json (merge i.envoy_metadata pod.labels))
        i.inject_annotations

  add_if_missing : String → String → Dict String → Dict String → Dict String
  add_if_missing key value annotations m =
      if is_missing (lookup key annotations) then insert key value m else m

  other_annotations : Pod → String → Dict String → Dict String
  unfolding add_if_missing
  other_annotations pod workload injected =
      add_if_missing sidecar_service_name workload pod.annotations
        (add_if_missing sidecar_namespace_name pod.namespace pod.annotations injected)

  -- assignInjectAnnotations
  unfoldable pub assign_inject_annotations : PodDataInfo → Dict String
  unfolding mesh_annotations other_annotations
  assign_inject_annotations p =
      let workload = (get_owner_meta_and_type p.pod_object).name in
      let injected = merge [] p.template_annotations in
      elim p.inject_mode [
        | sidecar_for_mesh ↦ mesh_annotations p.pod_object workload injected
        | _ ↦ other_annotations p.pod_object workload injected
      ]

unfoldable pub fits_dns : SidecarMode → String → Bool
fits_dns sidecar_for_mesh policy = policy == "" || policy == "ClusterFirst"
fits_dns _ policy = true

-- checkPodData: whether it passed, or an error
unfoldable pub check_pod_data : (String → Bool) → PodDataInfo → Outcome Bool
unfolding fits_dns
check_pod_data is_cidr p =
    if validate_annotations is_cidr p.inject_mode p.pod_object.annotations
    then ok (fits_dns p.inject_mode p.pod_object.dns_policy)
    else err invalid_annotations

-- v1.AdmissionResponse
pub record AdmissionResponse : Type 0 where
  pub allowed : Bool
  pub patch : Option (List PatchOperation)
  pub message : Option Error

module _ (quoted_json : Dict String → String) (is_cidr : String → Bool)
    (unmarshal : String → Option SidecarInjectionStatus) (marshal : SidecarInjectionStatus → String)
    (fill_template : PodDataInfo → Dict String → Workload → Outcome SidecarInjectionSpec)
    (builders : Dict PodPatchBuilder) where
  -- The options of the patch, from what the template gives.
  unfoldable pub patch_options : PodDataInfo → SidecarInjectionSpec → PatchOptions
  patch_options p filled =
      let sic = record filled { containers = apply_concurrency filled.containers } in
      record {
        sidecar_mode = p.inject_mode;
        pod = p.pod_object;
        prev_status = injection_status unmarshal marshal p.pod_object;
        annotations =
            add_inject_status_annotation unmarshal marshal p.inject_template_version sic
              (assign_inject_annotations quoted_json p);
        sic = sic;
        workload_name = (get_owner_meta_and_type p.pod_object).name;
        external_info = [];
      }

  patch_of : Outcome (List PatchOperation) → Outcome (Option (List PatchOperation))
  patch_of (ok ops) = ok (some ops)
  patch_of (err e) = err e
  patch_of panic = panic

  from_template :
      PodDataInfo → Outcome SidecarInjectionSpec → Outcome (Option (List PatchOperation))
  unfolding patch_of
  from_template p (ok filled) = patch_of (create_patch builders (patch_options p filled)).0
  from_template p (err e) = err e
  from_template p panic = panic

  if_required : PodDataInfo → Bool → Outcome (Option (List PatchOperation))
  unfolding from_template
  if_required p true = from_template p (
      fill_template p (assign_inject_annotations quoted_json p)
        (get_owner_meta_and_type p.pod_object))
  if_required p false = ok none

  if_passed : PodDataInfo → Outcome Bool → Outcome (Option (List PatchOperation))
  unfolding if_required
  if_passed p (ok true) =
      if_required p (require_inject p.inject_mode p.inject_template_config p.pod_object)
  if_passed p (ok false) = ok none
  if_passed p (err e) = err e
  if_passed p panic = panic

  -- getPodPatch: the patch, if there is to be one
  unfoldable pub get_pod_patch : PodDataInfo → Outcome (Option (List PatchOperation))
  unfolding if_passed
  get_pod_patch p = if_passed p (check_pod_data is_cidr p)

  respond : Outcome (Option (List PatchOperation)) → Outcome AdmissionResponse
  respond (ok patch) = ok (record { allowed = true; patch = patch; message = none })
  respond (err e) = ok (record { allowed = false; patch = none; message = some e })
  respond panic = panic

  respond_to : Outcome PodDataInfo → Outcome AdmissionResponse
  unfolding respond
  respond_to (ok p) = respond (get_pod_patch p)
  respond_to (err e) = respond (err e)
  respond_to panic = panic

  -- injectV1 and injectV1beta1, for the pod's data as assignPodDataInfo finds it
  unfoldable pub inject_v1 : Outcome PodDataInfo → Outcome AdmissionResponse
  unfolding respond_to
  inject_v1 pod_info = respond_to pod_info
