-- ===== src/Executor.antt =====
-- pkg/util/scheduler.go: TaskExecutor and its workers. A task is a number; what a task does is not
-- part of the executor.
pub mod Runs
use polaris_controller.Common.{
  ℕ, ◌+◌, ◌-◌, ◌%◌, ◌^◌, Bool, true, false, ltb, leb, eqb, if◌then◌else◌, Option, none, some, List,
  [], ◌∷◌, ◌++◌, length,
}
use polaris_controller.Common.Outcome.{Outcome, ok, panic}

-- An entry of delayQueue: a timer that fires once at `due`, or a ticker whose first tick is then.
pub data DelayTask : Type 0 where
  delay_task tick_task : (due task : ℕ) → DelayTask

abbrev pub due_of : DelayTask → ℕ
due_of (delay_task due task) = due
due_of (tick_task due task) = due

abbrev pub task_of : DelayTask → ℕ
task_of (delay_task due task) = task
task_of (tick_task due task) = task

-- worker: `id` counts the delayed tasks; `ran` are the tasks that were run, newest first.
pub record Worker : Type 0 where
  pub closed : Bool
  pub queue : List ℕ
  pub id : ℕ
  pub delay_queue : List (ℕ × DelayTask)
  pub ran : List ℕ

abbrev pub new_worker : Worker
new_worker = record { closed = false; queue = []; id = 0; delay_queue = []; ran = [] }

-- The capacity of the channel.
abbrev pub queue_size : ℕ
queue_size = 128

-- add: `none` where the sender waits for room in the channel.
unfoldable pub add : ℕ → Worker → Option Worker
add f w =
    if w.closed
    then some w
    else if ltb (length w.queue) queue_size
    then some (record w { queue = w.queue ++ f ∷ [] })
    else none

-- addDelay at the time `now`
unfoldable pub add_delay : ℕ → ℕ → ℕ → Bool → Worker → Worker
add_delay now delay f is_interval w = if w.closed then w else record w {
  id = w.id + 1;
  delay_queue =
      (w.id + 1, if is_interval then tick_task (now + delay) f else delay_task (now + delay) f)
      ∷ w.delay_queue;
}

-- One receive of the first loop of mainLoop: the next task is run.
run_next : List ℕ → Worker → Worker
run_next [] w = w
run_next (f ∷ rest) w = record w { queue = rest; ran = f ∷ w.ran }

unfoldable pub receive : Worker → Worker
unfolding run_next
receive w = run_next w.queue w

-- The same loop at the end of its context.
unfoldable pub close : Worker → Worker
close w = record w { closed = true }

-- One tick of the second loop: every entry whose timer or ticker has fired is run, its timer or
-- ticker is stopped, and the entry is deleted.
unfoldable pub fired : ℕ → List (ℕ × DelayTask) → List ℕ
fired now [] = []
fired now ((id, t) ∷ rest) =
    let more = fired now rest in if leb (due_of t) now then task_of t ∷ more else more

unfoldable pub waiting : ℕ → List (ℕ × DelayTask) → List (ℕ × DelayTask)
waiting now [] = []
waiting now ((id, t) ∷ rest) =
    let more = waiting now rest in if leb (due_of t) now then more else (id, t) ∷ more

unfoldable pub tick : ℕ → Worker → Worker
tick now w = record w {
  delay_queue = waiting now w.delay_queue;
  ran = fired now w.delay_queue ++ w.ran;
}

-- The worker that AffinityExecute and AffinityDelayExecute choose by the hash of a key, of 64 bits:
-- the remainder of a division by one less than the number of workers, as a uint64.
unfoldable pub affinity_index : ℕ → ℕ → Outcome ℕ
affinity_index workers hash =
    let divisor = (workers + 2 ^ 64 - 1) % 2 ^ 64 in
    if eqb divisor 0
    then panic
    else if ltb (hash % divisor) workers
    then ok (hash % divisor)
    else panic

-- Execute and its relatives choose by rand.Int31n, which panics unless its bound is positive; `draw`
-- is the generator's value.
unfoldable pub rand_index : ℕ → ℕ → Outcome ℕ
rand_index workers draw = if eqb workers 0 then panic else ok (draw % workers)
