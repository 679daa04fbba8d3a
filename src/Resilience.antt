-- ===== src/Resilience.antt =====
-- src/bluelab/platform/resilience.py: bounded calls to external dependencies.
-- Seconds are natural numbers of a clock tick, and the checked limits are non-negative.
pub mod Probe
pub mod Tripping
pub mod Bounds
pub mod Retries
mod Examples
use bluelab_backend_prod.Prelude.{
  ℕ, zero, suc, ◌+◌, ◌*◌, ◌^◌, ◌-◌, min, Bool, true, false, Option, none, some, List, [], ◌∷◌, ltb,
  leb, is_none, if◌then◌else◌, Result, ok, err, ◌>>◌, raise_if, ◌==◌,
}
use bluelab_backend_prod.Prelude.Int.{ℤ, pos, pos_part, ltb_ℤ, leb_ℤ}

pub data ValueError : Type 0 where
  bad_timeout bad_attempts bad_base bad_maximum bad_threshold bad_recovery : ValueError

-- The arguments of `DependencyPolicy(...)`, which may be of either sign.
pub record PolicyArgs : Type 0 where
  pub timeout : ℤ
  pub attempts : ℤ
  pub base : ℤ
  pub maximum : ℤ

pub record DependencyPolicy : Type 0 where
  pub timeout_seconds : ℕ
  pub max_attempts : ℕ
  pub backoff_base_seconds : ℕ
  pub backoff_max_seconds : ℕ

-- `__post_init__`; what passes is kept as natural numbers.
pub post_init : PolicyArgs → Result ValueError DependencyPolicy
post_init a = do
  raise_if (leb_ℤ a.timeout (pos 0)) bad_timeout
  raise_if (ltb_ℤ a.attempts (pos 1)) bad_attempts
  raise_if (ltb_ℤ a.base (pos 0)) bad_base
  raise_if (ltb_ℤ a.maximum a.base) bad_maximum
  ok (record {
    timeout_seconds = pos_part a.timeout;
    max_attempts = pos_part a.attempts;
    backoff_base_seconds = pos_part a.base;
    backoff_max_seconds = pos_part a.maximum;
  })

pub record CircuitBreaker : Type 0 where
  pub failure_threshold : ℕ
  pub recovery_seconds : ℕ
  pub failures : ℕ
  pub opened_at : Option ℕ
  pub probe_in_flight : Bool

-- `CircuitBreaker.__init__`
pub new_breaker : ℕ → ℕ → Result ValueError CircuitBreaker
new_breaker failure_threshold recovery_seconds = do
  raise_if (ltb failure_threshold 1) bad_threshold
  raise_if (leb recovery_seconds 0) bad_recovery
  ok (record {
    failure_threshold = failure_threshold;
    recovery_seconds = recovery_seconds;
    failures = 0;
    opened_at = none;
    probe_in_flight = false;
  })

-- The lock makes each method one step. The Boolean says whether the call is admitted;
-- `false` is `raise CircuitOpen`.
pub before_call : CircuitBreaker → ℕ → CircuitBreaker × Bool
before_call c clock = elim c.opened_at [
  | none ↦ (c, true)
  | some opened ↦
      if ltb clock (opened + c.recovery_seconds)
      then (c, false)
      else if c.probe_in_flight
      then (c, false)
      else (record c { probe_in_flight = true }, true)
]

pub succeeded : CircuitBreaker → CircuitBreaker
succeeded c = record c { failures = 0; opened_at = none; probe_in_flight = false }

pub failed : CircuitBreaker → ℕ → CircuitBreaker
failed c clock = record c {
  probe_in_flight = false;
  failures = c.failures + 1;
  opened_at = if leb c.failure_threshold (c.failures + 1) then some clock else c.opened_at;
}

-- How the awaited `operation()` ends, under `asyncio.timeout`.
pub data Outcome {ℓ κ} (T : Type ℓ) (E : Type κ) : Type (ℓ ⊔ κ) where
  returned : T → Outcome T E
  timed_out : Outcome T E
  raised : E → Outcome T E
  raised_circuit_open : Outcome T E

-- What surrounds one logical call: the outcome of each attempt, the clock when attempt `k`
-- asks the circuit and when it reports to it, and what other tasks do to the shared circuit
-- while the attempt runs and while the caller sleeps after it.
pub record World {ℓ κ} (T : Type ℓ) (E : Type κ) : Type (ℓ ⊔ κ) where
  pub outcome : ℕ → Outcome T E
  pub asks_at : ℕ → ℕ
  pub reports_at : ℕ → ℕ
  pub during_call : ℕ → CircuitBreaker → CircuitBreaker
  pub during_sleep : ℕ → CircuitBreaker → CircuitBreaker

-- How `call_dependency` ends; each way but `value` raises.
pub data Answer {ℓ κ} (T : Type ℓ) (E : Type κ) : Type (ℓ ⊔ κ) where
  value : T → Answer T E
  circuit_open : Answer T E
  rejected : E → Answer T E
  unavailable : Answer T E

-- The answer, the circuit it leaves, the `attempts` that reach telemetry, how often the
-- operation ran, and the delays slept, in order.
pub record Run {ℓ κ} (T : Type ℓ) (E : Type κ) : Type (ℓ ⊔ κ) where
  pub answer : Answer T E
  pub circuit : CircuitBreaker
  pub attempts : ℕ
  pub invoked : ℕ
  pub delays : List ℕ

-- min(backoff_base_seconds * (2**attempt), backoff_max_seconds)
pub backoff : DependencyPolicy → ℕ → ℕ
backoff policy attempt = min (policy.backoff_base_seconds * 2 ^ attempt) policy.backoff_max_seconds

module _ {ℓ κ} {T : Type ℓ} {E : Type κ} where
  pub finish : Answer T E → CircuitBreaker → ℕ → ℕ → Run T E
  finish answer circuit attempts invoked = record {
    answer = answer;
    circuit = circuit;
    attempts = attempts;
    invoked = invoked;
    delays = [];
  }

  -- One more invocation, and a sleep unless the delay is zero.
  pub after_failure : ℕ → Run T E → Run T E
  after_failure delay run = record run {
    invoked = suc run.invoked;
    delays = if delay == 0 then run.delays else delay ∷ run.delays;
  }

  pub invoked_once : Run T E → Run T E
  invoked_once run = record run { invoked = suc run.invoked }

module _ {ℓ κ} {T : Type ℓ} {E : Type κ} (policy : DependencyPolicy) (retryable : E → Bool) where
  -- The `except` and `else` clauses of one admitted attempt that left the circuit `ran`;
  -- `again` is what follows a failure that may be retried.
  pub settle : Outcome T E → ℕ → CircuitBreaker → Run T E → Run T E
  settle (returned v) attempt ran again =
      invoked_once (finish (value v) (succeeded ran) (suc attempt) 0)
  settle timed_out attempt ran again = again
  settle (raised e) attempt ran again =
      if retryable e then again else invoked_once (finish (rejected e) ran (suc attempt) 0)
  settle raised_circuit_open attempt ran again =
      invoked_once (finish circuit_open ran (suc attempt) 0)

  -- The `for` loop with `left` attempts to go; it ends at the last `raise`. The delay is
  -- computed, and other tasks have their turn, only if another attempt follows.
  pub attempt_loop : World T E → ℕ → ℕ → CircuitBreaker → Run T E
  attempt_loop w zero attempt c = finish unavailable c attempt 0
  attempt_loop w (suc left) attempt c =
      let asked = before_call c (w.asks_at attempt) in
      let ran = w.during_call attempt asked.0 in
      let down = failed ran (w.reports_at attempt) in
      let again =
        if left == 0
        then invoked_once (finish unavailable down (suc attempt) 0)
        else after_failure (backoff policy attempt)
            (attempt_loop w left (suc attempt) (w.during_sleep attempt down)) in
      if asked.1
      then settle (w.outcome attempt) attempt ran again
      else finish circuit_open asked.0 (suc attempt) 0

  pub call_dependency : World T E → CircuitBreaker → Run T E
  unfolding attempt_loop
  call_dependency w c = attempt_loop w policy.max_attempts 0 c
