-- ===== src/Tests/Injection.antt =====
-- Patches of pods at concrete inputs.
use text.Mathlib.TextLemmas.{cons-ne-nil}
use polaris_controller.Common.{
  String, ◌≡◌, ◌≢◌, refl, true, ◌==◌, if◌then◌else◌, Option, none, some, [], ◌∷◌,
}
use polaris_controller.Common.Dict.{Dict, lookup, insert, index}
use polaris_controller.Util.Text.{◌⋯◌}
use polaris_controller.Inject.Objects.{Pod}
use polaris_controller.Inject.Options.{SidecarInjectionStatus}
use polaris_controller.Inject.Annotations.{update_annotation, sort_keys, escape_json_pointer_value}
use polaris_controller.Inject.Annotations.Escapes.{unescape, unescape-escape_json_pointer_value}
use polaris_controller.Inject.Annotations.Merged.{
  run_map, perform_map, entries, run_map-update_annotation,
}
use polaris_controller.Inject.Webhook.Status.{
  status_of, is_explicit, injection_status, add_inject_status_annotation, sidecar_status,
}
use polaris_controller.Inject.Webhook.Status.Rounds.{
  with_annotations, injection_status-update_annotation,
}
use polaris_controller.Inject.Owner.{
  get_owner_meta_and_type, pod_template_hash_label, find_controller_ref,
}
use polaris_controller.Inject.Owner.Deployment.{get_owner_meta_and_type-deployment}
use polaris_controller.Tests.{reviews_meta}
use polaris_controller.Tests.Pods.{reviews_pod}
use polaris_controller.Tests.Agent.{app_pod, agent_spec}

escaped_name :
    unescape (escape_json_pointer_value "sidecar.polarismesh.cn/a~b") ≡ "sidecar.polarismesh.cn/a~b"
escaped_name = unescape-escape_json_pointer_value "sidecar.polarismesh.cn/a~b"

abbrev old_annotations : Option (Dict String)
old_annotations = some (("a", "1") ∷ ("b", "") ∷ [])

abbrev new_annotations : Dict String
new_annotations = ("c/d", "3") ∷ ("a", "2") ∷ ("b", "") ∷ []

annotations_merged :
    (result : Option (Dict String)) × (run_map
        (update_annotation old_annotations new_annotations)
        old_annotations
      ≡ some result)
    × ((k : String)
        → lookup k (entries result) ≡ (
            if index k new_annotations == ""
            then lookup k (entries old_annotations)
            else some (index k new_annotations)))
annotations_merged = run_map-update_annotation old_annotations new_annotations

abbrev sample_status : SidecarInjectionStatus
sample_status = status_of "v1" agent_spec

abbrev sample_result : Option (Dict String)
sample_result = some ((sidecar_status, "status") ∷ [])

written_status_runs :
    run_map
      (update_annotation none (
        add_inject_status_annotation
          (λ text. some sample_status)
          (λ s. "status")
          "v1"
          agent_spec
          []))
      none
    ≡ some sample_result
unfolding run_map update_annotation sort_keys add_inject_status_annotation insert index lookup
    perform_map
written_status_runs = refl

explicit_status : is_explicit sample_status ≡ true
unfolding status_of
explicit_status = refl

status_is_read_again :
    injection_status
      (λ text. some sample_status)
      (λ s. "status")
      (with_annotations (entries sample_result) app_pod)
    ≡ sample_status
status_is_read_again =
    injection_status-update_annotation (λ text. some sample_status) (λ s. "status") "v1" agent_spec
      [] app_pod none sample_result explicit_status (cons-ne-nil "s" "tatus") refl
      written_status_runs

abbrev reviews_replica : Pod
reviews_replica = record reviews_pod {
  meta = record reviews_meta { labels = (pod_template_hash_label, "5d4b9") ∷ [] };
  owner_references =
      record {
        api_version = "apps/v1";
        kind = "ReplicaSet";
        name = "my-reviews-5d4b9";
        controller = some true;
      }
      ∷ [];
}

replica_has_hash : index pod_template_hash_label reviews_replica.labels ≢ ""
unfolding index lookup
replica_has_hash = cons-ne-nil "5" "d4b9"

replica_kind : (find_controller_ref reviews_replica.owner_references).kind ≡ "ReplicaSet"
unfolding find_controller_ref
replica_kind = refl

replica_name :
    (find_controller_ref reviews_replica.owner_references).name
    ≡ "my-reviews" ⋯ "-" ⋯ index pod_template_hash_label reviews_replica.labels
unfolding find_controller_ref index lookup
replica_name = refl

deployment_of_replica : get_owner_meta_and_type reviews_replica ≡ record {
  name = "my-reviews";
  kind = "Deployment";
  api_version = (find_controller_ref reviews_replica.owner_references).api_version;
}
deployment_of_replica =
    get_owner_meta_and_type-deployment reviews_replica "my-reviews" (cons-ne-nil "r" "eviews-")
      replica_has_hash replica_kind replica_name
