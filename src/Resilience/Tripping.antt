-- ===== src/Resilience/Tripping.antt =====
-- src/bluelab/platform/resilience.py: when the circuit opens, and how it closes.
use bluelab_backend_prod.Prelude.{
  ℕ, suc, ◌+◌, not, ◌&&◌, false, none, some, List, [], ◌∷◌, ◌≡◌, ltb, leb, length, if◌then◌else◌,
  arith, ok,
}
use bluelab_backend_prod.Resilience.{CircuitBreaker, new_breaker, before_call, succeeded, failed}

-- Failures reported one after another, at the given clock readings.
pub fail_all : CircuitBreaker → List ℕ → CircuitBreaker
fail_all c [] = c
fail_all c (t ∷ ts) = fail_all (failed c t) ts

-- the last reading of a sequence
abbrev pub last_or : ℕ → List ℕ → ℕ
last_or d [] = d
last_or d (t ∷ ts) = last_or t ts

fail_all-counts :
    (c : CircuitBreaker) (ts : List ℕ)
    → ((fail_all c ts).failures ≡ c.failures + length ts)
      × ((fail_all c ts).failure_threshold ≡ c.failure_threshold)
      × ((fail_all c ts).recovery_seconds ≡ c.recovery_seconds)
unfolding fail_all failed
fail_all-counts c [] = ground arith
fail_all-counts c (t ∷ ts) = ground (arith, fail_all-counts (failed c t) ts)

-- After one more failure the circuit is open from that instant if the count has reached the
-- threshold.
fail_all-opened :
    (c : CircuitBreaker) (t : ℕ) (ts : List ℕ)
    → ((fail_all c (t ∷ ts)).opened_at ≡ (
        if leb c.failure_threshold (c.failures + suc (length ts))
        then some (last_or t ts)
        else c.opened_at))
      × ((fail_all c (t ∷ ts)).probe_in_flight ≡ false)
unfolding fail_all failed
fail_all-opened c t [] = ground arith
fail_all-opened c t (u ∷ ts) = ground (arith, fail_all-opened (failed c t) u ts)

-- A circuit with no failure on record.
pub record IsClosed (c : CircuitBreaker) : Type 0 where
  pub no_failures : c.failures ≡ 0
  pub not_open : c.opened_at ≡ none
  pub no_probe : c.probe_in_flight ≡ false

pub new_breaker-IsClosed :
    (threshold recovery : ℕ) {c : CircuitBreaker}
    → new_breaker threshold recovery ≡ ok c
    → IsClosed c
unfolding new_breaker
new_breaker-IsClosed threshold recovery h = ground arith

-- A successful call or probe closes the circuit, whatever its state was.
pub succeeded-IsClosed : (c : CircuitBreaker) → IsClosed (succeeded c)
unfolding succeeded
succeeded-IsClosed c = ground arith

-- After any run of failures on a closed circuit, with the last at `last_or t ts`, a caller is
-- refused exactly if the failures have reached the threshold and the recovery interval since
-- the last of them is not over.
pub before_call-fail_all :
    (c : CircuitBreaker) (t : ℕ) (ts : List ℕ) (clock : ℕ)
    → IsClosed c
    → (before_call (fail_all c (t ∷ ts)) clock).1
      ≡ not (
          leb c.failure_threshold (suc (length ts))
          && ltb clock (last_or t ts + c.recovery_seconds))
unfolding before_call
before_call-fail_all c t ts clock h =
    ground (arith, fail_all-opened c t ts, fail_all-counts c (t ∷ ts))
