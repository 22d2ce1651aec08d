-- ===== src/Controller/Select/Decisions.antt =====
-- The decisions of pkg/controller/controller.go about services, against those that later code makes
-- again.
use polaris_controller.Common.{
  ◌≡◌, ◌≢◌, true, false, Option, none, some, arith, eq_iff, inl, inr, ◌⊎◌, Option-cases, ◌↔◌,
}
use polaris_controller.Common.Dict.{lookup, index}
use polaris_controller.Kube.{Service, NamespaceObject}
use polaris_controller.Util.Names.Annotation
use polaris_controller.Util.Names.{workload_kind, is_enable_sync, sync_mode_demand}
use polaris_controller.Util.Filter.{ignore_service, compare_service_annotations_change}
use polaris_controller.Controller.Tasks.{
  Operation, operation_empty, operation_add, operation_update, operation_delete,
  resource_key_flag_add,
}
use polaris_controller.Controller.State.{Env}
use polaris_controller.Controller.Select.{
  by_namespace, is_polaris_service, sync_of, compare_service_change, is_namespace_sync_enable,
}
use polaris_controller.Controller.Instances.{allows_register}
use polaris_controller.Controller.Services.{operation_service}

-- Every service that passes IsPolarisService passes the guard of processSyncInstance, whatever its
-- annotation enableRegister is.
pub is_polaris_service-allows_register :
    (env : Env) (svc : Service) → is_polaris_service env svc ≡ true → allows_register env svc ≡ true
unfolding is_polaris_service allows_register sync_of index
is_polaris_service-allows_register env svc h =
    elim (Option-cases (lookup Annotation.sync svc.annotations)) [
      | inl missing ↦ rw missing (ground arith)
      | inr (v, there) ↦
          let yes_sync : v ≡ is_enable_sync = ground (arith, there, eq_iff v is_enable_sync) in
          rw (there, yes_sync) (ground arith)
    ]

-- CompareServiceChange never returns the annotation name workloadKind that processUpdateService
-- tests its result for.
pub compare_service_change-ne-workload_kind :
    (env : Env) (old new : Service) → compare_service_change env old new ≢ workload_kind
unfolding compare_service_change compare_service_annotations_change
compare_service_change-ne-workload_kind env old new = ground arith

-- The operations that the controller gives to its tasks.
abbrev pub IsOperation : Operation → Type 0
IsOperation op =
    (op ≡ operation_empty)
    ⊎ (op ≡ operation_add)
    ⊎ (op ≡ operation_update)
    ⊎ (op ≡ operation_delete)

-- syncService works on the service as it is at every operation that the controller gives to a task.
pub operation_service-unmarked :
    (env : Env) (op : Operation) (svc : Service)
    → IsOperation op
    → operation_service env op svc ≡ svc
unfolding operation_service
operation_service-unmarked env op svc h = ground (
  arith,
  eq_iff op resource_key_flag_add,
  eq_iff operation_empty resource_key_flag_add,
  eq_iff operation_add resource_key_flag_add,
  eq_iff operation_update resource_key_flag_add,
  eq_iff operation_delete resource_key_flag_add,
)

-- What IsPolarisService asks for, without its order of tests: the service is not ignored, and its
-- annotation sync is "true", or it has none and its namespace is found and has "true", or has none
-- either under a mode other than "demand".
abbrev pub NamespaceSyncs : Env → Option NamespaceObject → Type 0
NamespaceSyncs env none = ⊥
NamespaceSyncs env (some ns) =
    (lookup Annotation.sync ns.annotations ≡ some is_enable_sync)
    ⊎ ((lookup Annotation.sync ns.annotations ≡ none) × (env.config.sync_mode ≢ sync_mode_demand))

abbrev pub Syncs : Env → Service → Type 0
Syncs env svc =
    (ignore_service svc ≡ false)
    × ((lookup Annotation.sync svc.annotations ≡ some is_enable_sync)
        ⊎ ((lookup Annotation.sync svc.annotations ≡ none)
            × NamespaceSyncs env (env.namespaces svc.namespace)))

NamespaceSyncs-iff :
    (env : Env) (o : Option NamespaceObject) → (by_namespace env o ≡ true) ↔ NamespaceSyncs env o
unfolding by_namespace is_namespace_sync_enable
NamespaceSyncs-iff env none = ground arith
NamespaceSyncs-iff env (some ns) = elim (Option-cases (lookup Annotation.sync ns.annotations)) [
  | inl missing ↦
      rw (missing, by_namespace) (ground (arith, eq_iff env.config.sync_mode sync_mode_demand))
  | inr (v, there) ↦ rw (there, by_namespace) (ground (arith, eq_iff v is_enable_sync))
]

-- IsPolarisService accepts a service exactly if it is not ignored and its annotation sync is
-- "true", or it has none and its namespace is found and has "true", or has none under a mode other
-- than "demand".
pub is_polaris_service_iff :
    (env : Env) (svc : Service) → (is_polaris_service env svc ≡ true) ↔ Syncs env svc
unfolding is_polaris_service sync_of
is_polaris_service_iff env svc = elim (Option-cases (lookup Annotation.sync svc.annotations)) [
  | inl missing ↦ rw missing (ground (arith, NamespaceSyncs-iff env (env.namespaces svc.namespace)))
  | inr (v, there) ↦ rw there (ground (arith, eq_iff v is_enable_sync))
]
