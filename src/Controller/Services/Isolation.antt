-- ===== src/Controller/Services/Isolation.antt =====
-- What syncService leaves of the entries of other services, and of all entries where it fails
-- (pkg/controller/service.go).
use polaris_controller.Common.{
  String, ◌≡◌, ◌≢◌, refl, Bool, true, false, ◌==◌, Option, none, some, ◌∙◌, ap, ◌⊎◌, inl, inr,
}
use polaris_controller.Common.Dict.{lookup, lookup-insert, lookup-delete}
use polaris_controller.Common.Outcome.{Outcome, ok, err, panic, ◌>>◌, continue, caught, when}
use polaris_controller.Kube.{Service}
use polaris_controller.Controller.Tasks.{Task, key}
use polaris_controller.Controller.State.{
  Fetch, found, not_found, failed, Env, Controller, M, insert_task,
}
use polaris_controller.Controller.Select.{is_polaris_service}
use polaris_controller.Controller.Frames.{Keeps}
use polaris_controller.Controller.Instances.{process_sync_instance}
use polaris_controller.Controller.Instances.Frames.{process_sync_instance-Keeps}
use polaris_controller.Controller.Services.{
  process_delete_service, process_sync_namespace_and_service, process_update_service,
  operation_service, forget_service, sync_deleted, store_service, sync_found, sync_fetched,
  sync_service,
}
use polaris_controller.Controller.Services.Frames.{
  process_delete_service-Keeps, process_sync_namespace_and_service-Keeps,
  process_update_service-Keeps,
}

-- From a state, a result and a new state: the cache is as it was, or the result is a success and
-- the entries under other keys than that of the task are as they were.
abbrev Isolates : Task → Controller → Outcome (Unit {0}) × Controller → Type 0
Isolates t p (r, q) =
    (q.service_cache ≡ p.service_cache)
    ⊎ ((r ≡ ok tt)
        × ((j : String)
            → (key t == j) ≡ false
            → lookup j q.service_cache ≡ lookup j p.service_cache))

module _ (env : Env) (t : Task) where
  -- A part that keeps the cache, and after it one that isolates.
  Isolates-continue :
      (p : Controller) (r : Outcome (Unit {0})) (q : Controller) (m : M (Unit {0}))
      → q.service_cache ≡ p.service_cache
      → ((q : Controller) → Isolates t q (m q))
      → Isolates t p (continue r (λ _. m) q)
  Isolates-continue p (ok tt) q m k h = elim (h q) [
    | inl same ↦ inl (same ∙ k)
    | inr (succeeds, others) ↦ inr (succeeds, λ j other. others j other ∙ ap (lookup j) k)
  ]
  Isolates-continue p (err e) q m k h = inl k
  Isolates-continue p panic q m k h = inl k

  Isolates-then :
      (m n : M (Unit {0}))
      → Keeps m
      → ((q : Controller) → Isolates t q (n q))
      → (p : Controller) → Isolates t p ((m >> n) p)
  Isolates-then m n k h p = Isolates-continue p (m p).0 (m p).1 n (ap (λ c. c.0) (k p)) h

  store_service-Isolates :
      (svc : Service) (p : Controller) → Isolates t p (store_service env t svc p)
  unfolding store_service
  store_service-Isolates svc p =
      inr (refl, λ j other. rw (lookup-insert (key t) j svc p.service_cache, other) refl)

  forget_service-Isolates :
      (p : Controller) (r : Outcome (Unit {0})) (q : Controller)
      → q.service_cache ≡ p.service_cache
      → Isolates t p (continue (caught r) (forget_service env t) q)
  unfolding forget_service insert_task
  forget_service-Isolates p (ok tt) q k =
      inr (refl, λ j other. rw (lookup-delete (key t) j q.service_cache, other) (ap (lookup j) k))
  forget_service-Isolates p (err e) q k = inl k
  forget_service-Isolates p panic q k = inl k

  sync_deleted-Isolates :
      (o : Option Service) (p : Controller) → Isolates t p (sync_deleted env t o p)
  unfolding sync_deleted
  sync_deleted-Isolates none p = inl refl
  sync_deleted-Isolates (some cached) p =
      forget_service-Isolates p (process_delete_service env cached p).0
        (process_delete_service env cached p).1
        (ap (λ c. c.0) (process_delete_service-Keeps env cached p))

  when-Isolates :
      (b : Bool) (m : M (Unit {0}))
      → ((p : Controller) → Isolates t p (m p))
      → (p : Controller) → Isolates t p (when b m p)
  when-Isolates true m h p = h p
  when-Isolates false m h p = inl refl

  sync_found-Isolates :
      (svc operation : Service) (o : Option Service) (p : Controller)
      → Isolates t p (sync_found env t svc operation o p)
  unfolding sync_found
  sync_found-Isolates svc operation (some cached) p =
      Isolates-then (process_update_service env cached operation) (store_service env t svc)
        (process_update_service-Keeps env cached operation) (store_service-Isolates svc) p
  sync_found-Isolates svc operation none p =
      let register = process_sync_instance env operation >> store_service env t svc in
      Isolates-then (process_sync_namespace_and_service env operation)
        (when (is_polaris_service env operation) register)
        (process_sync_namespace_and_service-Keeps env operation)
        (when-Isolates (is_polaris_service env operation) register (
          Isolates-then (process_sync_instance env operation) (store_service env t svc)
            (process_sync_instance-Keeps env operation) (store_service-Isolates svc)))
        p

  sync_fetched-Isolates :
      (f : Fetch Service) (p : Controller) → Isolates t p (sync_fetched env t f p)
  unfolding sync_fetched insert_task
  sync_fetched-Isolates not_found p = sync_deleted-Isolates (lookup (key t) p.service_cache) p
  sync_fetched-Isolates (failed e) p = inl refl
  sync_fetched-Isolates (found svc) p =
      sync_found-Isolates svc (operation_service env t.operation svc)
        (lookup (key t) p.service_cache) p

-- Whatever syncService finds, does and returns, the entries of the cache of services under other
-- keys than that of its task stay as they were.
pub sync_service-others :
    (env : Env) (t : Task) (p : Controller) (j : String)
    → (key t == j) ≡ false
    → lookup j (sync_service env t p).1.service_cache ≡ lookup j p.service_cache
unfolding sync_service
sync_service-others env t p j other =
    elim (sync_fetched-Isolates env t (env.services t.namespace t.name) p) [
      | inl same ↦ ap (lookup j) same
      | inr (succeeds, others) ↦ others j other
    ]

-- Where syncService returns an error or panics, the cache of services is as it was before.
pub sync_service-fails :
    (env : Env) (t : Task) (p : Controller)
    → (sync_service env t p).0 ≢ ok tt
    → (sync_service env t p).1.service_cache ≡ p.service_cache
unfolding sync_service
sync_service-fails env t p fails =
    elim (sync_fetched-Isolates env t (env.services t.namespace t.name) p) [
      | inl same ↦ same
      | inr (succeeds, others) ↦ elim (fails succeeds) [ ]
    ]
