-- ===== src/Controller/Events/Watching.antt =====
-- What the handlers of pkg/controller/service.go leave for the periodic comparison.
use polaris_controller.Common.{
  String, ◌≡◌, refl, ◌∷◌, true, ◌||◌, ◌==◌, if◌then◌else◌, none, some, arith, inl, inr, Bool-cases,
}
use polaris_controller.Common.Dict.{lookup, lookup-insert, lookup-delete}
use polaris_controller.Kube.{Service}
use polaris_controller.Controller.Tasks.{operation_add, operation_update, key}
use polaris_controller.Controller.State.{Env, Controller, insert_task}
use polaris_controller.Controller.Select.{is_polaris_service}
use polaris_controller.Controller.Events.{service_task, update_service_event}

-- After an update of a service that was or is Polaris's, the store for the periodic comparison
-- holds the new service if it is Polaris's and nothing under its key otherwise, the entries of
-- other keys stay. Exactly one task is queued, an addition if the old service was not Polaris's.
pub update_service_event-watches :
    (env : Env) (old cur : Service) (p : Controller) (j : String)
    → (is_polaris_service env old || is_polaris_service env cur) ≡ true
    → (lookup j (update_service_event env old cur p).resync_service_cache ≡ (
        if key (service_task operation_update cur) == j
        then (if is_polaris_service env cur then some cur else none)
        else lookup j p.resync_service_cache))
      × ((update_service_event env old cur p).added
          ≡ service_task
              (if is_polaris_service env old then operation_update else operation_add)
              cur
            ∷ p.added)
unfolding update_service_event insert_task key
update_service_event-watches env old cur p j h = elim (Bool-cases (is_polaris_service env cur)) [
  | inl now ↦ elim (Bool-cases (is_polaris_service env old)) [
    | inl before ↦ rw (now, before) (lookup-insert _ j cur p.resync_service_cache, refl)
    | inr not_before ↦ rw (now, not_before) (lookup-insert _ j cur p.resync_service_cache, refl)
  ]
  | inr not_now ↦
      let before : is_polaris_service env old ≡ true = ground arith in
      rw (not_now, before) (lookup-delete _ j p.resync_service_cache, refl)
]
