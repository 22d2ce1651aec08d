-- ===== src/Controller/Services/Caching.antt =====
-- What syncService leaves in the cache of services (pkg/controller/service.go).
use polaris_controller.Common.{◌≡◌, refl, Bool, true, false, Option, none, some, ◌||◌, eq_refl}
use polaris_controller.Common.Dict.{lookup, lookup-insert, lookup-delete}
use polaris_controller.Common.Outcome.{Outcome, ok, err, panic, ◌>>◌, continue, caught, when}
use polaris_controller.Kube.{Service}
use polaris_controller.Controller.Tasks.{Task, key}
use polaris_controller.Controller.State.{found, not_found, Env, Controller, M}
use polaris_controller.Controller.Select.{is_polaris_service}
use polaris_controller.Controller.Services.{
  operation_service, store_service, sync_found, sync_fetched, sync_service, sync_deleted,
  forget_service, process_delete_service, process_sync_namespace_and_service,
  process_update_service,
}
use polaris_controller.Controller.Instances.{process_sync_instance}

abbrev pub is_some : Option Service → Bool
is_some none = false
is_some (some s) = true

-- A sequence that succeeds goes on from where its first part ended.
pub >>-eq-ok :
    (m k : M (Unit {0})) (p : Controller) → ((m >> k) p).0 ≡ ok tt → (m >> k) p ≡ k (m p).1
>>-eq-ok m k p e = go (m p).0 (m p).1 e
  where
    go :
        (r : Outcome (Unit {0})) (q : Controller)
        → (continue r (λ _. k) q).0 ≡ ok tt
        → continue r (λ _. k) q ≡ k q
    go (ok tt) q e = refl
    go (err x) q e = cc
    go panic q e = cc

module _ (env : Env) (t : Task) (svc : Service) where
  stored_after :
      (m : M (Unit {0})) (p : Controller)
      → ((m >> store_service env t svc) p).0 ≡ ok tt
      → lookup (key t) ((m >> store_service env t svc) p).1.service_cache ≡ some svc
  unfolding store_service
  stored_after m p e = rw (>>-eq-ok m (store_service env t svc) p e, lookup-insert, eq_refl) refl

  stored_after_two :
      (a b : M (Unit {0})) (wanted : Bool) (p : Controller)
      → wanted ≡ true
      → ((a >> when wanted (b >> store_service env t svc)) p).0 ≡ ok tt
      → lookup (key t) ((a >> when wanted (b >> store_service env t svc)) p).1.service_cache
        ≡ some svc
  stored_after_two a b false p h e = cc
  stored_after_two a b true p h e =
      let same = >>-eq-ok a (b >> store_service env t svc) p e in
      rw same (stored_after b (a p).1 (rw (← same) e))

  found_and_stored :
      (o : Option Service) (p : Controller)
      → (is_some o || is_polaris_service env (operation_service env t.operation svc)) ≡ true
      → (sync_found env t svc (operation_service env t.operation svc) o p).0 ≡ ok tt
      → lookup
          (key t)
          (sync_found env t svc (operation_service env t.operation svc) o p).1.service_cache
        ≡ some svc
  unfolding sync_found
  found_and_stored (some cached) p h e =
      stored_after (process_update_service env cached (operation_service env t.operation svc)) p e
  found_and_stored none p h e =
      stored_after_two
        (process_sync_namespace_and_service env (operation_service env t.operation svc))
        (process_sync_instance env (operation_service env t.operation svc))
        (is_polaris_service env (operation_service env t.operation svc)) p h e

-- When syncService finds the service of a task and returns no error, and the service was in the
-- cache or is Polaris's, the cache then holds the service as it was found under the task's key.
pub sync_service-stores :
    (env : Env) (t : Task) (svc : Service) (p : Controller)
    → env.services t.namespace t.name ≡ found svc
    → (is_some (lookup (key t) p.service_cache)
        || is_polaris_service env (operation_service env t.operation svc))
      ≡ true
    → (sync_service env t p).0 ≡ ok tt
    → lookup (key t) (sync_service env t p).1.service_cache ≡ some svc
unfolding sync_service sync_fetched
sync_service-stores env t svc p f h = rw f (found_and_stored env t svc _ p h)

forgotten_after :
    (env : Env) (t : Task) (r : Outcome (Unit {0})) (q : Controller)
    → (continue (caught r) (forget_service env t) q).0 ≡ ok tt
    → lookup (key t) (continue (caught r) (forget_service env t) q).1.service_cache ≡ none
unfolding forget_service
forgotten_after env t (ok tt) q e = rw (lookup-delete, eq_refl) refl
forgotten_after env t (err x) q e = cc
forgotten_after env t panic q e = cc

forgotten :
    (env : Env) (t : Task) (o : Option Service) (p : Controller)
    → lookup (key t) p.service_cache ≡ o
    → (sync_deleted env t o p).0 ≡ ok tt
    → lookup (key t) (sync_deleted env t o p).1.service_cache ≡ none
unfolding sync_deleted
forgotten env t none p h e = h
forgotten env t (some cached) p h e =
    forgotten_after env t (process_delete_service env cached p).0
      (process_delete_service env cached p).1 e

-- When syncService does not find the service of a task and returns no error, the cache then holds
-- nothing under the task's key.
pub sync_service-forgets :
    (env : Env) (t : Task) (p : Controller)
    → env.services t.namespace t.name ≡ not_found
    → (sync_service env t p).0 ≡ ok tt
    → lookup (key t) (sync_service env t p).1.service_cache ≡ none
unfolding sync_service sync_fetched
sync_service-forgets env t p f = rw f (forgotten env t _ p refl)
