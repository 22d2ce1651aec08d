-- ===== src/Tests/Tasks.antt =====
-- Tasks, keys, events and decisions at concrete inputs.
use polaris_controller.Common.{
  ℕ, ◌+◌, ◌%◌, ◌≡◌, ◌≢◌, ◌↔◌, refl, true, false, ◌==◌, if◌then◌else◌, some, none, [], ◌∷◌, inl, inr,
  arith,
}
use polaris_controller.Common.Dict.{lookup, index}
use polaris_controller.Common.Outcome.{Exec, remote, ok, err}
use polaris_controller.Kube.{namespace_object}
use polaris_controller.Util.Names.{workload_kind}
use polaris_controller.Util.Filter.{ignore_service, ignore_object}
use polaris_controller.Util.Text.{itoa}
use polaris_controller.Controller.Tasks.{
  kubernetes_service, Task, key, task_key, operation_add, operation_update,
}
use polaris_controller.Controller.Tasks.Keys.{bars, task_key-injective}
use polaris_controller.Controller.State.{new_polaris_controller, insert_task}
use polaris_controller.Controller.Select.{
  is_polaris_service, is_namespace_sync_enable, sync_of, compare_service_change,
}
use polaris_controller.Controller.Select.Decisions.{
  Syncs, is_polaris_service-allows_register, compare_service_change-ne-workload_kind,
  operation_service-unmarked, is_polaris_service_iff,
}
use polaris_controller.Controller.Instances.{allows_register}
use polaris_controller.Controller.Services.{operation_service}
use polaris_controller.Controller.Events.{service_task, update_service_event}
use polaris_controller.Controller.Events.Watching.{update_service_event-watches}
use polaris_controller.Controller.Namespaces.{on_namespace_update, namespace_task}
use polaris_controller.Controller.Namespaces.Updates.{on_namespace_update-queues}
use polaris_controller.Controller.Resync.{text_length, resync_service, resync_task}
use polaris_controller.Controller.Resync.Health.{
  HasFailed, failures_in_a_row, run_checks, run_checks-healthy,
}
use polaris_controller.Controller.Resync.Misses.{resync_service-queues}
use polaris_controller.Controller.Worker.{WorkQueue, worker}
use polaris_controller.Controller.Worker.Retries.{
  Failing, rounds, handle_task-retries, worker-never-returns,
}
use polaris_controller.Tests.{sample_env, reviews, reviews_task, reviews_namespace, seen}

reviews_keys_agree :
    (reviews.namespace ≡ "default")
    × (reviews.name ≡ "reviews")
    × (kubernetes_service ≡ kubernetes_service)
unfolding bars
reviews_keys_agree =
    task_key-injective "default" "default" "reviews" "reviews" kubernetes_service kubernetes_service
      refl refl refl refl refl

-- The queue of one task, as the count of its requeues.
abbrev one_task_queue : WorkQueue ℕ
one_task_queue = record {
  get = λ s. (some reviews_task, s);
  done = λ _ s. s;
  forget = λ _ _. 0;
  num_requeues = λ _ s. s;
  add_rate_limited = λ _ s. s + 1;
}

abbrev failing : Task → Exec ℕ (Unit {0})
failing _ s = (err (remote 500), s)

one_task_fails : Failing one_task_queue failing reviews_task
one_task_fails = record {
  got = λ _. refl;
  get_keeps = λ _. refl;
  done_keeps = λ _. refl;
  forget_resets = λ _. refl;
  add_counts = λ _. refl;
  failure = λ _. remote 500;
  fails = λ _. refl;
  f_keeps = λ _. refl;
}

twelve_failures :
    one_task_queue.num_requeues reviews_task (rounds one_task_queue failing 12 0) ≡ 12 % 11
twelve_failures = handle_task-retries one_task_queue failing reviews_task one_task_fails 0 refl 12

-- A queue that is shut down.
abbrev shut_queue : WorkQueue ℕ
shut_queue = record one_task_queue { get = λ s. (none, s) }

shut_worker_goes_on : (worker shut_queue failing 7 0).0 ≡ false
shut_worker_goes_on = worker-never-returns shut_queue failing 0 (λ _ _ h. cc) 7

reviews_is_polaris : is_polaris_service sample_env reviews ≡ true
unfolding is_polaris_service ignore_service ignore_object sync_of index lookup
reviews_is_polaris = refl

reviews_register : allows_register sample_env reviews ≡ true
reviews_register = is_polaris_service-allows_register sample_env reviews reviews_is_polaris

reviews_keep_kind : compare_service_change sample_env reviews reviews ≢ workload_kind
reviews_keep_kind = compare_service_change-ne-workload_kind sample_env reviews reviews

reviews_unmarked : operation_service sample_env operation_add reviews ≡ reviews
reviews_unmarked = operation_service-unmarked sample_env operation_add reviews (inr (inl refl))

reviews_sync : (is_polaris_service sample_env reviews ≡ true) ↔ Syncs sample_env reviews
reviews_sync = is_polaris_service_iff sample_env reviews

reviews_watched :
    (lookup "default|reviews|2"
        (update_service_event sample_env reviews reviews seen).resync_service_cache
      ≡ (if key (service_task operation_update reviews) == "default|reviews|2"
          then (if is_polaris_service sample_env reviews then some reviews else none)
          else lookup "default|reviews|2" seen.resync_service_cache))
    × ((update_service_event sample_env reviews reviews seen).added
        ≡ service_task
            (if is_polaris_service sample_env reviews then operation_update else operation_add)
            reviews
          ∷ seen.added)
unfolding is_polaris_service ignore_service ignore_object sync_of index lookup
reviews_watched =
    update_service_event-watches sample_env reviews reviews seen "default|reviews|2" refl

namespace_queues :
    (on_namespace_update sample_env
      (namespace_object reviews_namespace)
      (namespace_object reviews_namespace)
      seen).1.added
    ≡ (if is_namespace_sync_enable sample_env.config.sync_mode reviews_namespace
        then seen.added
        else namespace_task reviews_namespace ∷ seen.added)
unfolding ignore_object is_namespace_sync_enable lookup
namespace_queues =
    on_namespace_update-queues sample_env reviews_namespace reviews_namespace seen refl refl

resync_queues :
    resync_service sample_env (task_key "default" "reviews" kubernetes_service) reviews seen
    ≡ (ok tt, insert_task (resync_task "default" "reviews") seen)
unfolding bars text_length task_key itoa
resync_queues =
    resync_service-queues sample_env "default" "reviews" reviews seen refl refl (omega arith)
      (refl, tt)

three_failures_in_a_row :
    HasFailed
      (failures_in_a_row 0 (true ∷ false ∷ false ∷ false ∷ []))
      (run_checks (true ∷ false ∷ false ∷ false ∷ []) new_polaris_controller)
three_failures_in_a_row = run_checks-healthy (true ∷ false ∷ false ∷ false ∷ [])
