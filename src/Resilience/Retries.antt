-- ===== src/Resilience/Retries.antt =====
-- src/bluelab/platform/resilience.py: what the retries of one logical call achieve.
use bluelab_backend_prod.Prelude.{
  ℕ, zero, suc, ◌+◌, ◌≤◌, ◌<◌, Bool, true, false, none, some, List, ◌≡◌, refl, ap, arith,
}
use bluelab_backend_prod.Resilience.{
  DependencyPolicy, CircuitBreaker, before_call, failed, succeeded, World, backoff, finish, Outcome,
  settle, after_failure, invoked_once, attempt_loop, call_dependency, returned, timed_out, raised,
  raised_circuit_open, value, rejected,
}
use bluelab_backend_prod.Resilience.Probe.{admitted, probing_refuses}

module _ {ℓ κ} {T : Type ℓ} {E : Type κ} (retryable : E → Bool) where
  -- The outcomes after which the loop tries again.
  abbrev pub is_transient : Outcome T E → Bool
  is_transient (returned v) = false
  is_transient timed_out = true
  is_transient (raised e) = retryable e
  is_transient raised_circuit_open = false

-- No other task uses the circuit meanwhile.
pub record IsAlone {ℓ κ} {T : Type ℓ} {E : Type κ} (w : World T E) : Type 0 where
  pub in_call : (k : ℕ) (c : CircuitBreaker) → w.during_call k c ≡ c
  pub in_sleep : (k : ℕ) (c : CircuitBreaker) → w.during_sleep k c ≡ c

module _ {ℓ κ} {T : Type ℓ} {E : Type κ} (policy : DependencyPolicy) (retryable : E → Bool)
    (w : World T E) (alone : IsAlone w) where
  -- one transient failure on a closed circuit below its threshold, with attempts to spare
  step_transient :
      (left attempt : ℕ) (c : CircuitBreaker)
      → c.opened_at ≡ none
      → is_transient retryable (w.outcome attempt) ≡ true
      → attempt_loop policy retryable w (suc (suc left)) attempt c
        ≡ after_failure (backoff policy attempt) (
            attempt_loop policy retryable w
              (suc left)
              (suc attempt)
              (failed c (w.reports_at attempt)))
  unfolding attempt_loop before_call settle
  step_transient left attempt c o h =
      ground
        (arith, alone.in_call attempt c, alone.in_sleep attempt (failed c (w.reports_at attempt)))

  step_returned :
      (left attempt : ℕ) (c : CircuitBreaker) {v : T}
      → c.opened_at ≡ none
      → w.outcome attempt ≡ returned v
      → attempt_loop policy retryable w (suc left) attempt c
        ≡ invoked_once (finish (value v) (succeeded c) (suc attempt) 0)
  unfolding attempt_loop before_call settle
  step_returned left attempt c o h = ground (arith, alone.in_call attempt c)

  step_rejected :
      (n : ℕ) (c : CircuitBreaker) {opened : ℕ} (e : E)
      → 0 < n
      → c.opened_at ≡ some opened
      → c.probe_in_flight ≡ false
      → opened + c.recovery_seconds ≤ w.asks_at 0
      → w.outcome 0 ≡ raised e
      → retryable e ≡ false
      → attempt_loop policy retryable w n 0 c
        ≡ invoked_once (finish (rejected e) (record c { probe_in_flight = true }) 1 0)
  unfolding attempt_loop before_call settle
  step_rejected zero c e h o p due bad final = absurd (omega arith)
  step_rejected (suc n) c e h o p due bad final =
      ground (arith, alone.in_call 0 (record c { probe_in_flight = true }))

  loop_returns :
      (k n attempt m : ℕ) (c : CircuitBreaker) (v : T)
      → m ≡ attempt + k
      → k < n
      → c.opened_at ≡ none
      → c.failures + k < c.failure_threshold
      → ((i : ℕ) → attempt ≤ i → i < m → is_transient retryable (w.outcome i) ≡ true)
      → w.outcome m ≡ returned v
      → let run = attempt_loop policy retryable w n attempt c in
        (run.answer ≡ value v)
        × (run.invoked ≡ suc k)
        × (run.attempts ≡ suc m)
        × (run.circuit.failures ≡ 0)
        × (run.circuit.opened_at ≡ none)
  unfolding invoked_once finish succeeded failed after_failure
  loop_returns k zero attempt m c v e h o room fails good = absurd (omega arith)
  loop_returns zero (suc n) attempt m c v e h o room fails good =
      let here : m ≡ attempt = omega arith in
      rw (step_returned n attempt c {v = v} o (rw (← here) good))
        (rw here (refl, refl, refl, refl, refl))
  loop_returns (suc k) (suc zero) attempt m c v e h o room fails good = absurd (omega arith)
  loop_returns (suc k) (suc (suc n)) attempt m c v e h o room fails good =
      let ih =
        loop_returns k (suc n) (suc attempt) m (failed c (w.reports_at attempt)) v (omega arith)
          (omega arith) (ground arith) (omega arith) (λ i a b. fails i (omega arith) b) good in
      rw (step_transient n attempt c o (fails attempt (omega arith) (omega arith)))
        (ih.0, ap suc ih.1, ih.2, ih.3, ih.4)

-- On a closed circuit that nobody else uses, if the first `k` outcomes are failures that may be
-- retried and the next is a value, with `k` below the number of attempts and too few failures to
-- trip the circuit, then the call returns that value after `k + 1` runs of the operation, and
-- leaves the circuit closed with no failures.
pub call_dependency_returns {ℓ κ} :
    {T : Type ℓ} {E : Type κ} (policy : DependencyPolicy) (retryable : E → Bool) (w : World T E)
    (alone : IsAlone w) (k : ℕ) (c : CircuitBreaker) (v : T)
    → k < policy.max_attempts
    → c.opened_at ≡ none
    → c.failures + k < c.failure_threshold
    → ((i : ℕ) → i < k → is_transient retryable (w.outcome i) ≡ true)
    → w.outcome k ≡ returned v
    → let run = call_dependency policy retryable w c in
      (run.answer ≡ value v)
      × (run.invoked ≡ suc k)
      × (run.attempts ≡ suc k)
      × (run.circuit.failures ≡ 0)
      × (run.circuit.opened_at ≡ none)
unfolding call_dependency
call_dependency_returns policy retryable w alone k c v h o room fails good =
    loop_returns policy retryable w alone k policy.max_attempts 0 k c v (omega arith) h o room
      (λ i _ b. fails i b) good

-- The half-open probe is never given back when its operation raises an error that is not to be
-- retried: the error is raised, and from then on every caller at every time is refused, until
-- some other task reports to the circuit.
pub rejected_probe_blocks {ℓ κ} :
    {T : Type ℓ} {E : Type κ} (policy : DependencyPolicy) (retryable : E → Bool) (w : World T E)
    (alone : IsAlone w) (c : CircuitBreaker) (opened : ℕ) (e : E) (later : List ℕ)
    → 0 < policy.max_attempts
    → c.opened_at ≡ some opened
    → c.probe_in_flight ≡ false
    → opened + c.recovery_seconds ≤ w.asks_at 0
    → w.outcome 0 ≡ raised e
    → retryable e ≡ false
    → let run = call_dependency policy retryable w c in
      (run.answer ≡ rejected e) × (admitted run.circuit later ≡ 0)
unfolding call_dependency finish invoked_once
rejected_probe_blocks policy retryable w alone c opened e later h o p due bad final =
    let stuck = record c { probe_in_flight = true } in
    rw (step_rejected policy retryable w alone policy.max_attempts c e h o p due bad final)
      (refl, (probing_refuses stuck opened later o refl).0)
