-- ===== src/Controller/Worker.antt =====
-- pkg/controller/controller.go: process, handleTask and worker. The work queue of client-go is a
-- parameter: its operations over a state `S`, whose other parts the processing of a task changes.
pub mod Retries
use polaris_controller.Common.{
  ℕ, zero, suc, Bool, true, false, ltb, if◌then◌else◌, Option, none, some,
}
use polaris_controller.Common.Outcome.{Outcome, ok, err, panic, Exec}
use polaris_controller.Controller.Tasks.{
  kubernetes_namespace, kubernetes_service, kubernetes_config_map, kubernetes_endpoints, ObjectType,
  Task,
}
use polaris_controller.Controller.State.{Env, M}
use polaris_controller.Controller.Namespaces.{sync_namespace}
use polaris_controller.Controller.Services.{sync_service}
use polaris_controller.Controller.ConfigMaps.{sync_config_map}

process_type : Env → ObjectType → Task → M (Unit {0})
process_type env kubernetes_namespace t = sync_namespace env t.namespace
process_type env kubernetes_service t = sync_service env t
process_type env kubernetes_endpoints t = sync_service env t
process_type env kubernetes_config_map t = sync_config_map env t

unfoldable pub process : Env → Task → M (Unit {0})
unfolding process_type
process env t = process_type env t.object_type t

-- workqueue.RateLimitingInterface: `get` gives none once the queue is shut down.
pub record WorkQueue (S : Type 0) : Type 0 where
  pub get : S → Option Task × S
  pub done : Task → S → S
  pub forget : Task → S → S
  pub num_requeues : Task → S → ℕ
  pub add_rate_limited : Task → S → S

abbrev pub max_retries : ℕ
max_retries = 10

module _ {S : Type 0} (queue : WorkQueue S) (f : Task → Exec S (Unit {0})) where
  -- What follows f(task), with the deferred Done.
  unfoldable pub settle : Task → Outcome (Unit {0}) → S → Outcome Bool × S
  settle t (ok _) s = (ok true, queue.done t (queue.forget t s))
  settle t (err e) s =
      if ltb (queue.num_requeues t s) max_retries
      then (ok true, queue.done t (queue.add_rate_limited t s))
      else (ok true, queue.done t (queue.forget t s))
  settle t panic s = (panic, queue.done t s)

  handle_got : Option Task → S → Outcome Bool × S
  handle_got none s = (ok true, s)
  handle_got (some t) s = let (r, s') = f t s in settle t r s'

  -- handleTask: its result tells the worker whether to go on. On a queue that is shut down it
  -- returns the flag `shutdown`, which is true.
  unfoldable pub handle_task : Exec S Bool
  unfolding handle_got settle
  handle_task s = let (val, s') = queue.get s in handle_got val s'

  worker_next : Outcome Bool × S → (S → Bool × S) → Bool × S
  worker_next (ok true, s) k = k s
  worker_next (_, s) k = (true, s)

  -- worker, for a number of rounds: whether it has returned (or panicked) by then.
  unfoldable pub worker : ℕ → S → Bool × S
  unfolding worker_next
  worker zero s = (false, s)
  worker (suc n) s = worker_next (handle_task s) (worker n)
