-- ===== src/Resilience/Examples.antt =====
-- Runs of src/bluelab/platform/resilience.py that meet the hypotheses of its theorems.
use bluelab_backend_prod.Prelude.{
  ℕ, zero, suc, ◌+◌, ◌≤◌, ◌<◌, Bool, true, false, none, some, [], ◌∷◌, ◌≡◌, refl, leb, any, sum,
  arith, if◌then◌else◌, ◌-◌, ◌*◌,
}
use bluelab_backend_prod.Prelude.Int.{pos}
use bluelab_backend_prod.Resilience.{
  PolicyArgs, DependencyPolicy, CircuitBreaker, World, Outcome, returned, timed_out, raised, value,
  rejected, call_dependency,
}
use bluelab_backend_prod.Resilience.Probe.{admitted, half_open_single_probe}
use bluelab_backend_prod.Resilience.Bounds.{call_dependency_bounded}
use bluelab_backend_prod.Resilience.Retries.{
  IsAlone, is_transient, call_dependency_returns, rejected_probe_blocks,
}

abbrev args : PolicyArgs
args = record { timeout = pos 5; attempts = pos 3; base = pos 1; maximum = pos 4 }

abbrev policy : DependencyPolicy
policy = record {
  timeout_seconds = 5;
  max_attempts = 3;
  backoff_base_seconds = 1;
  backoff_max_seconds = 4;
}

abbrev closed : CircuitBreaker
closed = record {
  failure_threshold = 3;
  recovery_seconds = 30;
  failures = 0;
  opened_at = none;
  probe_in_flight = false;
}

abbrev opened : CircuitBreaker
opened = record closed { failures = 3; opened_at = some 100 }

-- a first time-out, then the value 7
abbrev second_time : ℕ → Outcome ℕ ℕ
second_time zero = timed_out
second_time (suc k) = returned 7

abbrev world : (ℕ → Outcome ℕ ℕ) → World ℕ ℕ
world outcome = record {
  outcome = outcome;
  asks_at = λ k. 200 + k;
  reports_at = λ k. 201 + k;
  during_call = λ k c. c;
  during_sleep = λ k c. c;
}

abbrev alone : (outcome : ℕ → Outcome ℕ ℕ) → IsAlone (world outcome)
alone outcome = record { in_call = λ k c. refl; in_sleep = λ k c. refl }

abbrev never : ℕ → Bool
never e = false

second_time_fails : (i : ℕ) → i < 1 → is_transient never (second_time i) ≡ true
second_time_fails zero h = refl
second_time_fails (suc i) h = absurd (omega (arith, h))

half_open_single_probe_example :
    admitted opened (110 ∷ 130 ∷ 131 ∷ [])
    ≡ (if any (leb (100 + 30)) (110 ∷ 130 ∷ 131 ∷ []) then 1 else 0)
half_open_single_probe_example = half_open_single_probe opened 100 (110 ∷ 130 ∷ 131 ∷ []) refl refl

call_dependency_bounded_example :
    let run = call_dependency policy never (world second_time) closed in
    (run.invoked ≤ 3) × (run.attempts ≤ 3) × (sum run.delays ≤ (3 - 1) * 4)
call_dependency_bounded_example = call_dependency_bounded policy never (world second_time) closed

call_dependency_returns_example :
    let run = call_dependency policy never (world second_time) closed in
    (run.answer ≡ value 7)
    × (run.invoked ≡ 2)
    × (run.attempts ≡ 2)
    × (run.circuit.failures ≡ 0)
    × (run.circuit.opened_at ≡ none)
call_dependency_returns_example =
    call_dependency_returns policy never (world second_time) (alone second_time) 1 closed 7
      (omega arith) refl (omega arith) second_time_fails refl

rejected_probe_blocks_example :
    let run = call_dependency policy never (world (λ k. raised 9)) opened in
    (run.answer ≡ rejected 9) × (admitted run.circuit (300 ∷ 400 ∷ []) ≡ 0)
rejected_probe_blocks_example =
    rejected_probe_blocks policy never (world (λ k. raised 9)) (alone (λ k. raised 9)) opened 100 9
      (300 ∷ 400 ∷ []) (omega arith) refl refl (omega arith) refl refl
