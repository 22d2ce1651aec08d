-- ===== src/Controller/Worker/Retries.antt =====
-- handleTask and worker of pkg/controller/controller.go: how often a failing task is tried, and
-- when the worker returns.
use polaris_controller.Common.{
  ℕ, zero, suc, ◌+◌, ◌%◌, ◌≡◌, ◌≢◌, refl, true, false, ltb, if◌then◌else◌, some, arith, inl, inr,
  Option-cases,
}
use polaris_controller.Common.Outcome.{Error, Outcome, ok, err, panic, Exec}
use polaris_controller.Controller.Tasks.{Task}
use polaris_controller.Controller.Worker.{
  WorkQueue, max_retries, settle, handle_got, handle_task, worker_next, worker,
}

-- client-go's documented behaviour at one task `t`: Forget ends the count of its requeues,
-- AddRateLimited adds one to it, Get and Done leave it; and the schedule that the theorem is about:
-- every Get gives `t`, and its processing fails and leaves the count.
pub record Failing {S : Type 0} (queue : WorkQueue S) (f : Task → Exec S (Unit {0})) (t : Task)
    : Type 0 where
  pub got : (s : S) → (queue.get s).0 ≡ some t
  pub get_keeps : (s : S) → queue.num_requeues t (queue.get s).1 ≡ queue.num_requeues t s
  pub done_keeps : (s : S) → queue.num_requeues t (queue.done t s) ≡ queue.num_requeues t s
  pub forget_resets : (s : S) → queue.num_requeues t (queue.forget t s) ≡ 0
  pub add_counts :
      (s : S) → queue.num_requeues t (queue.add_rate_limited t s) ≡ queue.num_requeues t s + 1
  pub failure : S → Error
  pub fails : (s : S) → (f t s).0 ≡ err (failure s)
  pub f_keeps : (s : S) → queue.num_requeues t (f t s).1 ≡ queue.num_requeues t s

module _ {S : Type 0} (queue : WorkQueue S) (f : Task → Exec S (Unit {0})) where
  -- `n` calls of handleTask.
  unfoldable pub rounds : ℕ → S → S
  rounds zero s = s
  rounds (suc n) s = (handle_task queue f (rounds n s)).1

  module _ (t : Task) (c : Failing queue f t) where
    settle_count :
        (e : Error) (s : S)
        → queue.num_requeues t (settle queue f t (err e) s).1
          ≡ (if ltb (queue.num_requeues t s) max_retries then queue.num_requeues t s + 1 else 0)
    unfolding settle
    settle_count e s = ground (
      arith,
      c.done_keeps (queue.add_rate_limited t s),
      c.done_keeps (queue.forget t s),
      c.add_counts s,
      c.forget_resets s,
    )

    handle_count :
        (s : S)
        → queue.num_requeues t (handle_task queue f s).1
          ≡ (if ltb (queue.num_requeues t s) max_retries then queue.num_requeues t s + 1 else 0)
    unfolding handle_task
    handle_count s =
        rw (c.got s, handle_got)
          (rw (c.fails (queue.get s).1) (
            rw (settle_count (c.failure (queue.get s).1) (f t (queue.get s).1).1)
              (rw (c.f_keeps (queue.get s).1, c.get_keeps s) refl)))

    -- While a task fails at every attempt, the count of its requeues after `n` attempts is `n`
    -- modulo 11, if it is 0 at the start.
    pub handle_task-retries :
        (s : S) → queue.num_requeues t s ≡ 0 → (n : ℕ) → queue.num_requeues t (rounds n s) ≡ n % 11
    unfolding rounds
    handle_task-retries s start zero = start
    handle_task-retries s start (suc n) =
        let count = handle_task-retries s start n in
        ground (arith, handle_count (rounds n s), count)

  settle-not-false :
      (t : Task) (r : Outcome (Unit {0})) (s : S) → r ≢ panic → (settle queue f t r s).0 ≡ ok true
  unfolding settle
  settle-not-false t (ok tt) s h = refl
  settle-not-false t (err e) s h = ground arith
  settle-not-false t panic s h = absurd (h refl)

  handle_task-true :
      (s : S) → ((t : Task) (s : S) → (f t s).0 ≢ panic) → (handle_task queue f s).0 ≡ ok true
  unfolding handle_task
  handle_task-true s h = elim (Option-cases (queue.get s).0) [
    | inl shut ↦ rw (shut, handle_got) refl
    | inr (t, got) ↦
        rw (got, handle_got)
          (settle-not-false t (f t (queue.get s).1).0 (f t (queue.get s).1).1 (h t (queue.get s).1))
  ]

  -- Whatever the queue does, and so also when it reports at every Get that it is shut down, and as
  -- long as no processing panics, the worker has not returned after any number of rounds.
  pub worker-never-returns :
      (s : S) → ((t : Task) (s : S) → (f t s).0 ≢ panic) → (n : ℕ) → (worker queue f n s).0 ≡ false
  unfolding worker
  worker-never-returns s h zero = refl
  worker-never-returns s h (suc n) =
      rw (handle_task-true s h, worker_next) (worker-never-returns (handle_task queue f s).1 h n)
