-- ===== src/Inject/Webhook.antt =====
-- pkg/inject/pkg/kube/inject/webhook.go, pod.go and pod_patch.go: the patch of a pod, from the operations
-- that the builder of its mode makes.
pub mod Status
pub mod Picks
pub mod Members
use polaris_controller.Common.{String, if◌then◌else◌, Option, none, some, List, [], ◌∷◌, ◌++◌, map}
use polaris_controller.Common.Dict.{Dict, lookup}
use polaris_controller.Common.Outcome.{
  no_patch_builder, Exec, pure, raise, modify, gets, ◌>>=◌, ◌>>◌,
}
use polaris_controller.Util.Names.{parse_sidecar_mode_name}
use polaris_controller.Inject.Objects.{Pod, Container, Volume, SecretReference}
use polaris_controller.Inject.Options.{
  PatchOptions, PatchType, patch_remove, patch_add, patch_update,
}
use polaris_controller.Inject.Patch.{
  Operation, remove_items, add_items, add_containers, container_name, volume_name, secret_name,
}
use polaris_controller.Inject.Annotations.{MapOperation, update_annotation}

-- PodPatchBuilder. The requests' other fields are the arguments; `Option` is the state. PatchContainer may
-- write to the elements of the slice External, which is its caller's: they are the second result.
pub record PodPatchBuilder : Type 0 where
  pub patch_container :
      PatchType
      → String
      → List Container
      → List Container
      → Exec PatchOptions (List (Operation Container) × List Container)
  pub patch_volumes :
      PatchType → String → List Volume → List Volume → Exec PatchOptions (List (Operation Volume))
  pub patch_image_pull_secrets :
      PatchType
      → String
      → List SecretReference
      → List SecretReference
      → Exec PatchOptions (List (Operation SecretReference))

-- The methods of apply/base/patch.go
unfoldable pub patch_container :
    PatchType → String → List Container → List Container → List (Operation Container)
patch_container patch_add base_path source external = add_containers source external base_path
patch_container patch_remove base_path source external =
    remove_items container_name source external base_path
patch_container patch_update base_path source external = []

unfoldable pub patch_volumes :
    PatchType → String → List Volume → List Volume → List (Operation Volume)
patch_volumes patch_add base_path source external = add_items source external base_path
patch_volumes patch_remove base_path source external =
    remove_items volume_name source external base_path
patch_volumes patch_update base_path source external = []

unfoldable pub patch_image_pull_secrets :
    PatchType
    → String
    → List SecretReference
    → List SecretReference
    → List (Operation SecretReference)
patch_image_pull_secrets patch_add base_path source external = add_items source external base_path
patch_image_pull_secrets patch_remove base_path source external =
    remove_items secret_name source external base_path
patch_image_pull_secrets patch_update base_path source external = []

-- An operation on a member of the pod.
pub data PatchOperation : Type 0 where
  on_init_containers : Operation Container → PatchOperation
  on_containers : Operation Container → PatchOperation
  on_volumes : Operation Volume → PatchOperation
  on_image_pull_secrets : Operation SecretReference → PatchOperation
  add_dns_config : String → PatchOperation
  add_security_context : String → PatchOperation
  on_annotations : MapOperation → PatchOperation

-- if x != nil { one operation }
abbrev pub if_some : Option String → (String → PatchOperation) → List PatchOperation
if_some none operation = []
if_some (some x) operation = operation x ∷ []

-- The map of annotations, if it is there.
abbrev pub annotations_of : Pod → Option (Dict String)
annotations_of pod = if pod.has_annotations then some pod.annotations else none

-- The patch, from the answers to the requests.
unfoldable pub assemble :
    List (Operation Container)
    → List (Operation Container)
    → List (Operation Volume)
    → List (Operation SecretReference)
    → List (Operation Container)
    → List (Operation Container)
    → List (Operation Container)
    → List (Operation Volume)
    → List (Operation SecretReference)
    → Option String
    → Option String
    → List MapOperation
    → List PatchOperation
assemble removed_inits removed_containers removed_volumes removed_secrets added_inits
      added_containers updated_containers added_volumes added_secrets dns_config security_context
      annotations =
    map on_init_containers removed_inits
    ++ (map on_containers removed_containers
        ++ (map on_volumes removed_volumes
            ++ (map on_image_pull_secrets removed_secrets
                ++ (map on_init_containers added_inits
                    ++ (map on_containers added_containers
                        ++ (map on_containers updated_containers
                            ++ (map on_volumes added_volumes
                                ++ (map on_image_pull_secrets added_secrets
                                    ++ (if_some dns_config add_dns_config
                                        ++ (if_some security_context add_security_context
                                            ++ map on_annotations annotations))))))))))

-- The slices that the requests for containers share with the options.
abbrev pub write_prev_inits : List Container → PatchOptions → PatchOptions
write_prev_inits cs o = record o { prev_status = record o.prev_status { init_containers = cs } }

abbrev pub write_prev_containers : List Container → PatchOptions → PatchOptions
write_prev_containers cs o = record o { prev_status = record o.prev_status { containers = cs } }

abbrev pub write_sic_inits : List Container → PatchOptions → PatchOptions
write_sic_inits cs o = record o { sic = record o.sic { init_containers = cs } }

abbrev pub write_sic_containers : List Container → PatchOptions → PatchOptions
write_sic_containers cs o = record o { sic = record o.sic { containers = cs } }

-- A request for containers, with what it writes to the slice.
abbrev pub asked :
    (List Container → PatchOptions → PatchOptions)
    → Exec PatchOptions (List (Operation Container) × List Container)
    → Exec PatchOptions (List (Operation Container))
asked write request = request >>= λ r. modify (write r.1) >> pure r.0

-- The nine requests, in their order, and the patch that puts the answers together.
unfoldable pub patch_with : PodPatchBuilder → Exec PatchOptions (List PatchOperation)
patch_with builder opt =
    (asked write_prev_inits (
          builder.patch_container patch_remove "/spec/initContainers" opt.pod.init_containers
            opt.prev_status.init_containers)
        >>= λ removed_inits.
            asked write_prev_containers (
              builder.patch_container patch_remove "/spec/containers" opt.pod.containers
                opt.prev_status.containers)
            >>= λ removed_containers.
                builder.patch_volumes patch_remove "/spec/volumes" opt.pod.volumes
                  opt.prev_status.volumes
                >>= λ removed_volumes.
                    builder.patch_image_pull_secrets patch_remove "/spec/imagePullSecrets"
                      opt.pod.image_pull_secrets opt.prev_status.image_pull_secrets
                    >>= λ removed_secrets.
                        asked write_sic_inits (
                          builder.patch_container patch_add "/spec/initContainers"
                            opt.pod.init_containers opt.sic.init_containers)
                        >>= λ added_inits.
                            asked write_sic_containers (
                              builder.patch_container patch_add "/spec/containers"
                                opt.pod.containers opt.sic.containers)
                            >>= λ added_containers.
                                (λ o.
                                  asked write_sic_containers
                                    (builder.patch_container patch_update "/spec/containers"
                                      opt.pod.containers o.sic.containers)
                                    o)
                                >>= λ updated_containers.
                                    builder.patch_volumes patch_add "/spec/volumes" opt.pod.volumes
                                      opt.sic.volumes
                                    >>= λ added_volumes.
                                        builder.patch_image_pull_secrets patch_add
                                          "/spec/imagePullSecrets" opt.pod.image_pull_secrets
                                          opt.sic.image_pull_secrets
                                        >>= λ added_secrets. gets (λ after.
                                          assemble removed_inits removed_containers removed_volumes
                                            removed_secrets added_inits added_containers
                                            updated_containers added_volumes added_secrets
                                            opt.sic.dns_config opt.pod.security_context
                                            (update_annotation (annotations_of after.pod)
                                              opt.annotations)))
      opt

with_builder : Option PodPatchBuilder → Exec PatchOptions (List PatchOperation)
with_builder none = raise no_patch_builder
with_builder (some builder) = patch_with builder

-- createPatch, before the patch is written as JSON
unfoldable pub create_patch : Dict PodPatchBuilder → Exec PatchOptions (List PatchOperation)
unfolding with_builder
create_patch builders opt =
    with_builder (lookup (parse_sidecar_mode_name opt.sidecar_mode) builders) opt
