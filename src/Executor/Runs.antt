-- ===== src/Executor/Runs.antt =====
-- Which worker a key goes to, and how often a task runs (pkg/util/scheduler.go).
use native.Mathlib.Nat.{mod-lt}
use polaris_controller.Common.{
  ℕ, zero, suc, ◌+◌, ◌-◌, ◌%◌, ◌^◌, ◌<◌, ◌≡◌, ◌≢◌, Bool, ◌&&◌, leb, eqb, any, if◌then◌else◌, refl,
  sym, ap, ◌∙◌, List, [], ◌∷◌, ◌++◌, Bool-cases, inl, inr, arith,
}
use polaris_controller.Common.Outcome.{ok, panic}
use polaris_controller.Executor.{
  DelayTask, due_of, task_of, Worker, fired, waiting, tick, affinity_index,
}

-- Ticks of the second loop, each at its time.
unfoldable pub run_ticks : List ℕ → Worker → Worker
run_ticks [] w = w
run_ticks (now ∷ times) w = run_ticks times (tick now w)

-- One of the ticks is at or after the time.
unfoldable pub reaches : List ℕ → ℕ → Bool
reaches times due = any (λ now. leb due now) times

-- How often a task stands in a list.
unfoldable pub count : ℕ → List ℕ → ℕ
count f [] = 0
count f (x ∷ xs) = let more = count f xs in if eqb x f then suc more else more

-- How many of the entries are due at one of the ticks and have the task.
unfoldable pub count_due : ℕ → List ℕ → List (ℕ × DelayTask) → ℕ
count_due f times [] = 0
count_due f times ((id, t) ∷ q) =
    let more = count_due f times q in
    if reaches times (due_of t) && eqb (task_of t) f then suc more else more

-- The entries that none of the ticks reaches.
unfoldable pub not_due : List ℕ → List (ℕ × DelayTask) → List (ℕ × DelayTask)
not_due times [] = []
not_due times ((id, t) ∷ q) =
    let more = not_due times q in if reaches times (due_of t) then more else (id, t) ∷ more

count-append : (f : ℕ) (xs ys : List ℕ) → count f (xs ++ ys) ≡ count f xs + count f ys
unfolding count
count-append f [] ys = omega arith
count-append f (x ∷ xs) ys = let later = count-append f xs ys in ground (arith, later)

count_due-none : (f : ℕ) (q : List (ℕ × DelayTask)) → count_due f [] q ≡ 0
unfolding count_due reaches
count_due-none f [] = refl
count_due-none f ((id, t) ∷ q) = count_due-none f q

not_due-none : (q : List (ℕ × DelayTask)) → not_due [] q ≡ q
unfolding not_due reaches
not_due-none [] = refl
not_due-none ((id, t) ∷ q) = ap (λ r. (id, t) ∷ r) (not_due-none q)

not_due-waiting :
    (now : ℕ) (times : List ℕ) (q : List (ℕ × DelayTask))
    → not_due times (waiting now q) ≡ not_due (now ∷ times) q
unfolding not_due waiting reaches
not_due-waiting now times [] = refl
not_due-waiting now times ((id, t) ∷ q) =
    let later = not_due-waiting now times q in
    elim (Bool-cases (leb (due_of t) now)) [
      | inl here ↦ rw here later
      | inr before ↦ rw (before, later) refl
    ]

count_due-fired :
    (f now : ℕ) (times : List ℕ) (q : List (ℕ × DelayTask))
    → count f (fired now q) + count_due f times (waiting now q) ≡ count_due f (now ∷ times) q
unfolding count_due fired waiting reaches count
count_due-fired f now times [] = omega arith
count_due-fired f now times ((id, t) ∷ q) =
    let later = count_due-fired f now times q in
    elim (Bool-cases (leb (due_of t) now)) [
      | inl here ↦ rw here (ground (arith, later))
      | inr before ↦ rw before (ground (arith, later))
    ]

-- Over any ticks, the entries that none of them reaches wait on in their order, and each of the
-- others has run its task exactly once, also that of an interval: of every task there are as many runs
-- more as it has such entries.
pub run_ticks-once :
    (times : List ℕ) (w : Worker) (f : ℕ)
    → ((run_ticks times w).delay_queue ≡ not_due times w.delay_queue)
      × (count f (run_ticks times w).ran ≡ count_due f times w.delay_queue + count f w.ran)
unfolding run_ticks tick
run_ticks-once [] w f =
    (sym (not_due-none w.delay_queue), omega (arith, count_due-none f w.delay_queue))
run_ticks-once (now ∷ times) w f =
    let (queue, ran) = run_ticks-once times (tick now w) f in
    (
      queue ∙ not_due-waiting now times w.delay_queue,
      omega (
        arith,
        ran,
        count-append f (fired now w.delay_queue) w.ran,
        count_due-fired f now times w.delay_queue,
      ),
    )

-- With two workers or more a key's worker is the remainder of its hash by one less than their
-- number, and with fewer the choice panics; so no key goes to the last worker. The number of workers
-- is below 2^63, as an int is.
pub affinity_index-lem :
    (workers hash : ℕ)
    → workers < 2 ^ 63
    → (affinity_index workers hash ≡ (if leb 2 workers then ok (hash % (workers - 1)) else panic))
      × (affinity_index workers hash ≢ ok (workers - 1))
unfolding affinity_index
affinity_index-lem zero hash small = (ground arith, ground arith)
affinity_index-lem (suc zero) hash small = (ground arith, ground arith)
affinity_index-lem (suc (suc n)) hash small =
    let divisor : (suc (suc n) + 2 ^ 64 - 1) % 2 ^ 64 ≡ suc n = omega arith in
    let rest : suc (suc n) - 1 ≡ suc n = omega arith in
    let bound : hash % suc n < suc n = mod-lt hash {m = suc n} (omega arith) in
    rw (rest, divisor) (ground arith, ground arith)
