-- ===== src/Resilience/Bounds.antt =====
-- src/bluelab/platform/resilience.py: the limits of one logical call.
use bluelab_backend_prod.Prelude.{
  ℕ, zero, suc, ◌+◌, ◌*◌, ◌-◌, ◌≤◌, ◌<◌, Bool, ◌≡◌, sum, if◌then◌else◌, ◌==◌, if-both, arith, ok,
}
use bluelab_backend_prod.Resilience.{
  PolicyArgs, DependencyPolicy, post_init, CircuitBreaker, before_call, failed, World, Run, backoff,
  Answer, unavailable, circuit_open, Outcome, settle, finish, after_failure, invoked_once,
  attempt_loop, call_dependency, returned, timed_out, raised, raised_circuit_open,
}

-- The limits that `__post_init__` promises.
pub record IsBounded (p : DependencyPolicy) : Type 0 where
  pub some_time : 0 < p.timeout_seconds
  pub some_attempt : 0 < p.max_attempts
  pub ordered : p.backoff_base_seconds ≤ p.backoff_max_seconds

-- A policy that `__post_init__` accepts has a positive time limit, at least one attempt, and a
-- maximal backoff that is no shorter than its base.
pub post_init-IsBounded : (a : PolicyArgs) {p : DependencyPolicy} → post_init a ≡ ok p → IsBounded p
unfolding post_init
post_init-IsBounded a h = ground arith

-- How often a loop with `left` attempts to go can sleep.
abbrev pub sleeps : ℕ → ℕ
sleeps zero = 0
sleeps (suc left) = left

sleeps-eq-sub_one : (left : ℕ) → sleeps left ≡ left - 1
sleeps-eq-sub_one zero = omega arith
sleeps-eq-sub_one (suc left) = omega arith

module _ {ℓ κ} {T : Type ℓ} {E : Type κ} (policy : DependencyPolicy) (retryable : E → Bool) where
  pub record Fits (left attempt : ℕ) (run : Run T E) : Type 0 where
    pub few_calls : run.invoked ≤ left
    pub few_attempts : run.attempts ≤ attempt + left
    pub short_sleep : sum run.delays ≤ sleeps left * policy.backoff_max_seconds

  settle-Fits :
      (o : Outcome T E) (left attempt : ℕ) (ran : CircuitBreaker) (again : Run T E)
      → Fits (suc left) attempt again
      → Fits (suc left) attempt (settle policy retryable o attempt ran again)
  unfolding settle finish invoked_once
  settle-Fits (returned v) left attempt ran again h = ground arith
  settle-Fits timed_out left attempt ran again h = h
  settle-Fits (raised e) left attempt ran again h = ground arith
  settle-Fits raised_circuit_open left attempt ran again h = ground arith

  after_failure-Fits :
      (left attempt : ℕ) (run : Run T E)
      → Fits (suc left) (suc attempt) run
      → Fits (suc (suc left)) attempt (after_failure (backoff policy attempt) run)
  unfolding after_failure backoff
  after_failure-Fits left attempt run h = ground arith

  once-Fits :
      (a : Answer T E) (c : CircuitBreaker) (left attempt : ℕ)
      → Fits (suc left) attempt (invoked_once (finish a c (suc attempt) 0))
  unfolding finish invoked_once
  once-Fits a c left attempt = ground arith

  again-Fits :
      (left attempt : ℕ) (down : CircuitBreaker) {run : Run T E}
      → Fits left (suc attempt) run
      → Fits (suc left) attempt (
          if left == 0
          then invoked_once (finish unavailable down (suc attempt) 0)
          else after_failure (backoff policy attempt) run)
  again-Fits zero attempt down h = once-Fits unavailable down zero attempt
  again-Fits (suc left) attempt down h =
      if-both (Fits (suc (suc left)) attempt) (suc left == 0)
        (once-Fits unavailable down (suc left) attempt) (after_failure-Fits left attempt _ h)

  finish-Fits :
      (a : Answer T E) (c : CircuitBreaker) (left attempt n : ℕ)
      → n ≤ attempt + left
      → Fits left attempt (finish a c n 0)
  unfolding finish
  finish-Fits a c left attempt n h = ground arith

  loop-Fits :
      (w : World T E) (left attempt : ℕ) (c : CircuitBreaker)
      → Fits left attempt (attempt_loop policy retryable w left attempt c)
  unfolding attempt_loop
  loop-Fits w zero attempt c = finish-Fits unavailable c 0 attempt attempt (omega arith)
  loop-Fits w (suc left) attempt c =
      let asked = before_call c (w.asks_at attempt) in
      let ran = w.during_call attempt asked.0 in
      let down = failed ran (w.reports_at attempt) in
      if-both (Fits (suc left) attempt) asked.1
        (settle-Fits (w.outcome attempt) left attempt ran _ (
          again-Fits left attempt down
            (loop-Fits w left (suc attempt) (w.during_sleep attempt down))))
        (finish-Fits circuit_open asked.0 (suc left) attempt (suc attempt) (omega arith))

-- Whatever the outcomes, the clock and other tasks do, one logical call runs the operation and
-- counts attempts at most `max_attempts` times, and it sleeps at most `max_attempts - 1` times
-- the maximal backoff in all.
pub call_dependency_bounded {ℓ κ} :
    {T : Type ℓ} {E : Type κ} (policy : DependencyPolicy) (retryable : E → Bool) (w : World T E)
    (c : CircuitBreaker)
    → let run = call_dependency policy retryable w c in
      (run.invoked ≤ policy.max_attempts)
      × (run.attempts ≤ policy.max_attempts)
      × (sum run.delays ≤ (policy.max_attempts - 1) * policy.backoff_max_seconds)
unfolding call_dependency
call_dependency_bounded policy retryable w c =
    let fits = loop-Fits policy retryable w policy.max_attempts 0 c in
    (
      fits.few_calls,
      omega (arith, fits.few_attempts),
      rw (← sleeps-eq-sub_one policy.max_attempts) fits.short_sleep,
    )
