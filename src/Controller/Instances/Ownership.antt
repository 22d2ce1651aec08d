-- ===== src/Controller/Instances/Ownership.antt =====
-- The metadata by which the controller knows its own instances again (pkg/controller/apis.go).
use polaris_controller.Common.{
  String, ◌≡◌, ◌↔◌, refl, ap, true, false, Option, ◌==◌, none, some, [], ◌∷◌, arith, eq_refl,
  Bool-cases, inl, inr, ◌∙◌,
}
use polaris_controller.Common.Dict.{Dict, lookup, insert, merge, index, lookup-insert}
use polaris_controller.Common.Outcome.{Outcome, ok, err, panic}
use polaris_controller.Kube.{Service}
use polaris_controller.Util.Names.{polaris_cluster_name, polaris_source}
use polaris_controller.Util.Names.Annotation
use polaris_controller.Address.{Address, SdkInstance, meta_of, is_sync_instance}
use polaris_controller.Controller.State.{Env}
use polaris_controller.Controller.Instances.{merge_metadata_with_service, with_own_keys, new_meta}

lookup-merge {ℓ} :
    {V : Type ℓ} (j : String) (into from : Dict V)
    → lookup j from ≡ none
    → lookup j (merge into from) ≡ lookup j into
unfolding merge lookup
lookup-merge j into [] h = refl
lookup-merge j into ((k, v) ∷ from) h = elim (Bool-cases (k == j)) [
  | inl here ↦ absurd (ground arith)
  | inr other ↦
      let rest : lookup j from ≡ none = ground (arith, h) in
      lookup-merge j (insert k v into) from rest ∙ rw (lookup-insert k j v into, other) refl
]

value : {A : Type 0} → A → Outcome A → A
value d (ok a) = a
value d (err e) = d
value d panic = d

owned_keys :
    (env : Env) (addr : Address) (ins : SdkInstance) (custom : Option (Dict String))
    (metadata : Dict String)
    → lookup polaris_source addr.metadata ≡ none
    → lookup polaris_cluster_name addr.metadata ≡ none
    → with_own_keys env addr custom ≡ ok metadata
    → ins.metadata ≡ some metadata
    → is_sync_instance env.config.cluster_name ins ≡ true
unfolding is_sync_instance meta_of with_own_keys index value
owned_keys env addr ins none metadata no_source no_cluster merged e = absurd (ground arith)
owned_keys env addr ins (some custom) metadata no_source no_cluster merged e =
    let same = ap (value []) merged in
    rw (e, meta_of, ← same)
      (rw
        (
          lookup-merge polaris_source _ addr.metadata no_source,
          lookup-merge polaris_cluster_name _ addr.metadata no_cluster,
        )
        (simp (lookup-insert, eq_refl)))

-- An instance that is registered with the metadata that the controller makes for an address is taken
-- for the controller's own, whatever metadata the user asks for on the service, if the labels of its
-- pod have neither the key "source" nor "clusterName", and if making the metadata does not panic.
pub merge_metadata_with_service-owned :
    (env : Env) (service : Service) (addr : Address) (ins : SdkInstance) (metadata : Dict String)
    → lookup polaris_source addr.metadata ≡ none
    → lookup polaris_cluster_name addr.metadata ≡ none
    → merge_metadata_with_service env service addr ≡ ok metadata
    → ins.metadata ≡ some metadata
    → is_sync_instance env.config.cluster_name ins ≡ true
unfolding merge_metadata_with_service
merge_metadata_with_service-owned env service addr ins metadata no_source no_cluster merged e =
    owned_keys env addr ins _ metadata no_source no_cluster merged e

nil_map :
    (env : Env) (addr : Address) (custom : Option (Dict String))
    → (with_own_keys env addr custom ≡ panic) ↔ (custom ≡ none)
unfolding with_own_keys
nil_map env addr none = (λ _. refl, λ _. refl)
nil_map env addr (some custom) = (λ e. absurd (ground arith), λ e. absurd (ground arith))

-- Making the metadata panics exactly if the service asks for some with a text that json.Unmarshal
-- makes a nil map of.
merge_metadata_with_service-panics_iff :
    (env : Env) (service : Service) (addr : Address)
    → (merge_metadata_with_service env service addr ≡ panic) ↔ (
        (index Annotation.metadata service.annotations == "" ≡ false)
        × ((env.decode_strings (index Annotation.metadata service.annotations)).1 ≡ none))
unfolding merge_metadata_with_service new_meta
merge_metadata_with_service-panics_iff env service addr =
    elim (Bool-cases (index Annotation.metadata service.annotations == "")) [
      | inl empty ↦
          let nothing = nil_map env addr (some []) in
          rw empty (
            λ p. absurd (let e = nothing.0 p in ground (arith, e)),
            λ (h, _). absurd (ground (arith, h)),
          )
      | inr asked ↦
          let both =
            nil_map env addr
              (env.decode_strings (index Annotation.metadata service.annotations)).1 in
          rw asked (λ p. (refl, both.0 p), λ (_, h). both.1 h)
    ]
