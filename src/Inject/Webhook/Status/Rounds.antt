-- ===== src/Inject/Webhook/Status/Rounds.antt =====
-- Two injections of one pod: what the first writes down, the second reads (webhook.go, pod.go).
use mathlib.Core.Path.{subst}
use polaris_controller.Common.{
  String, ◌≡◌, ◌≢◌, refl, ap, ◌∙◌, true, false, ◌==◌, eq_iff, Option, some, arith,
}
use polaris_controller.Common.Dict.{Dict, lookup, index, or_empty, lookup-insert}
use polaris_controller.Inject.Objects.{Pod}
use polaris_controller.Inject.Options.{SidecarInjectionStatus, SidecarInjectionSpec}
use polaris_controller.Inject.Annotations.{update_annotation}
use polaris_controller.Inject.Annotations.Merged.{run_map, entries, run_map-update_annotation}
use polaris_controller.Inject.Webhook.Status.{
  sidecar_status, is_explicit, status_of, status_or_legacy, text_of, injection_status,
  add_inject_status_annotation,
}

-- The pod with the annotations that the patch leaves.
abbrev pub with_annotations : Dict String → Pod → Pod
with_annotations annotations pod = record pod {
  meta = record pod.meta { annotations = annotations };
}

module _ (unmarshal : String → Option SidecarInjectionStatus)
    (marshal : SidecarInjectionStatus → String) where
  added-status :
      (version : String) (sic : SidecarInjectionSpec) (injected : Dict String)
      → marshal (status_of version sic) == "" ≡ false
      → index sidecar_status (add_inject_status_annotation unmarshal marshal version sic injected)
        ≡ marshal (status_of version sic)
  unfolding index add_inject_status_annotation
  added-status version sic injected h = rw h (
      ap or_empty
        (lookup-insert sidecar_status sidecar_status (marshal (status_of version sic)) injected))

  -- When something is injected, and its status is read from JSON as it was written, then the next
  -- injection of the patched pod finds the names of just what this one added, whatever the
  -- annotations were.
  pub injection_status-update_annotation :
      (version : String) (sic : SidecarInjectionSpec) (injected : Dict String) (pod : Pod)
      (target result : Option (Dict String))
      → is_explicit (status_of version sic) ≡ true
      → marshal (status_of version sic) ≢ ""
      → unmarshal (marshal (status_of version sic)) ≡ some (status_of version sic)
      → run_map
          (update_annotation target
            (add_inject_status_annotation unmarshal marshal version sic injected))
          target
        ≡ some result
      → injection_status unmarshal marshal (with_annotations (entries result) pod)
        ≡ status_of version sic
  unfolding injection_status status_or_legacy text_of
  injection_status-update_annotation version sic injected pod target result explicit nonempty reads
        runs =
      let added = add_inject_status_annotation unmarshal marshal version sic injected in
      let (result', runs', holds) = run_map-update_annotation target added in
      let same : result' ≡ result = cc (runs, runs') in
      let full : marshal (status_of version sic) == "" ≡ false =
        ground (arith, nonempty, eq_iff (marshal (status_of version sic)) "") in
      let text = added-status version sic injected full in
      let found : lookup sidecar_status (entries result) ≡ some (marshal (status_of version sic)) =
        subst (λ r. lookup sidecar_status (entries r) ≡ some (marshal (status_of version sic))) same
          (holds sidecar_status ∙ rw (text, full) refl) in
      rw (found, reads, explicit) refl
