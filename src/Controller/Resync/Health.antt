-- ===== src/Controller/Resync/Health.antt =====
-- checkHealth of pkg/controller/rsync.go as a state machine over the results of its checks.
use polaris_controller.Common.{
  ℕ, ◌+◌, ◌≡◌, refl, Bool, true, false, ltb, if◌then◌else◌, List, [], ◌∷◌, arith,
}
use polaris_controller.Controller.State.{Controller, new_polaris_controller}
use polaris_controller.Controller.Resync.{after_check}

-- The checks one after the other.
unfoldable pub run_checks : List Bool → Controller → Controller
run_checks [] p = p
run_checks (healthy ∷ checks) p = run_checks checks (after_check healthy p)

-- The number of failures at the end of the checks, after `n` before them.
abbrev pub failures_in_a_row : ℕ → List Bool → ℕ
failures_in_a_row n [] = n
failures_in_a_row n (true ∷ checks) = failures_in_a_row 0 checks
failures_in_a_row n (false ∷ checks) = failures_in_a_row (n + 1) checks

-- The state after `n` failures in a row.
abbrev pub HasFailed : ℕ → Controller → Type 0
HasFailed n p =
    (p.is_polaris_server_healthy ≡ ltb n 3)
    × (p.polaris_server_failed_times ≡ (if ltb n 3 then n else 0))

after_check-HasFailed :
    (healthy : Bool) (n : ℕ) (p : Controller)
    → HasFailed n p
    → HasFailed (if healthy then 0 else n + 1) (after_check healthy p)
unfolding after_check
after_check-HasFailed true n p h = ground arith
after_check-HasFailed false n p h = ground arith

run_checks-HasFailed :
    (checks : List Bool) (n : ℕ) (p : Controller)
    → HasFailed n p
    → HasFailed (failures_in_a_row n checks) (run_checks checks p)
unfolding run_checks
run_checks-HasFailed [] n p h = h
run_checks-HasFailed (true ∷ checks) n p h =
    run_checks-HasFailed checks 0 (after_check true p) (after_check-HasFailed true n p h)
run_checks-HasFailed (false ∷ checks) n p h =
    run_checks-HasFailed checks (n + 1) (after_check false p) (after_check-HasFailed false n p h)

-- From the controller's start, after any results of health checks, the server counts as healthy
-- exactly if fewer than three checks failed since the last one that succeeded; the count of failures
-- is then their number, and 0 otherwise.
pub run_checks-healthy :
    (checks : List Bool)
    → HasFailed (failures_in_a_row 0 checks) (run_checks checks new_polaris_controller)
run_checks-healthy checks = run_checks-HasFailed checks 0 new_polaris_controller (refl, refl)
