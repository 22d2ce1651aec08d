-- ===== src/Inject/Serve.antt =====
-- pkg/inject/pkg/kube/inject/webhook.go: serveInject, the HTTP side of the webhook. The decoding of the
-- body by the Kubernetes libraries is a parameter; writing the response as JSON does not fail.
use polaris_controller.Common.{ℕ, String, Bool, ◌==◌, not, if◌then◌else◌, Option, List, [], ◌∷◌}
use polaris_controller.Common.Dict.{Dict}
use polaris_controller.Common.Outcome.{Outcome, ok, err, panic}
use polaris_controller.Inject.Options.{SidecarInjectionStatus, SidecarInjectionSpec}
use polaris_controller.Inject.Owner.{Workload}
use polaris_controller.Inject.Webhook.{PodPatchBuilder}
use polaris_controller.Inject.PodData.{PodDataInfo}
use polaris_controller.Inject.Admission.{AdmissionResponse, inject_v1}

-- What the decoder makes of a body. `review` is an AdmissionReview of v1 or v1beta1, with its UID and
-- the data of its pod; `other_object` is an object of another type with the kind of one.
pub data Decoded : Type 0 where
  undecodable other_kind other_object : Decoded
  review : String → Outcome PodDataInfo → Decoded

-- What is written to the client: an error with its status, the review with the response, or null.
pub data Written : Type 0 where
  http_error : ℕ → Written
  reviewed : String → AdmissionResponse → Written
  null : Written

module _ (quoted_json : Dict String → String) (is_cidr : String → Bool)
    (unmarshal : String → Option SidecarInjectionStatus) (marshal : SidecarInjectionStatus → String)
    (fill_template : PodDataInfo → Dict String → Workload → Outcome SidecarInjectionSpec)
    (builders : Dict PodPatchBuilder) (decode : String → Decoded) where
  written : String → Outcome AdmissionResponse → Outcome (List Written)
  written uid (ok r) = ok (reviewed uid r ∷ [])
  written uid (err e) = err e
  written uid panic = panic

  -- After the error for another kind the code goes on, and writes null.
  serve_decoded : Decoded → Outcome (List Written)
  unfolding written
  serve_decoded undecodable = ok (http_error 400 ∷ [])
  serve_decoded other_kind = ok (http_error 400 ∷ null ∷ [])
  serve_decoded other_object = ok []
  serve_decoded (review uid pod_info) =
      written uid (inject_v1 quoted_json is_cidr unmarshal marshal fill_template builders pod_info)

  -- serveInject
  unfoldable pub serve_inject : String → String → Outcome (List Written)
  unfolding serve_decoded
  serve_inject body content_type =
      if body == ""
      then ok (http_error 400 ∷ [])
      else if not (content_type == "application/json")
      then ok (http_error 415 ∷ [])
      else serve_decoded (decode body)
