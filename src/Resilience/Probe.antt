-- ===== src/Resilience/Probe.antt =====
-- src/bluelab/platform/resilience.py: the half-open circuit admits one probe.
use bluelab_backend_prod.Prelude.{
  ℕ, ◌+◌, true, false, some, List, [], ◌∷◌, ◌≡◌, refl, leb, any, if◌then◌else◌, arith,
}
use bluelab_backend_prod.Resilience.{CircuitBreaker, before_call}

-- Callers that ask at the given clock readings, while none reports back.
pub ask_all : CircuitBreaker → List ℕ → CircuitBreaker
ask_all c [] = c
ask_all c (t ∷ ts) = ask_all (before_call c t).0 ts

-- How many of them are admitted.
pub admitted : CircuitBreaker → List ℕ → ℕ
admitted c [] = 0
admitted c (t ∷ ts) = (if (before_call c t).1 then 1 else 0) + admitted (before_call c t).0 ts

-- While a probe is unreported, every caller at every time is refused and the circuit does
-- not change.
pub probing_refuses :
    (c : CircuitBreaker) (opened : ℕ) (ts : List ℕ)
    → c.opened_at ≡ some opened
    → c.probe_in_flight ≡ true
    → (admitted c ts ≡ 0) × (ask_all c ts ≡ c)
unfolding admitted ask_all before_call
probing_refuses c opened [] o p = (refl, refl)
probing_refuses c opened (t ∷ ts) o p = ground (arith, probing_refuses c opened ts o p)

-- A circuit that is open with no probe in flight admits exactly one of a sequence of callers, none
-- of whom has reported back yet, if one of them asks after the recovery interval, and otherwise
-- none.
pub half_open_single_probe :
    (c : CircuitBreaker) (opened : ℕ) (ts : List ℕ)
    → c.opened_at ≡ some opened
    → c.probe_in_flight ≡ false
    → admitted c ts ≡ (if any (leb (opened + c.recovery_seconds)) ts then 1 else 0)
unfolding admitted before_call
half_open_single_probe c opened [] o p = refl
half_open_single_probe c opened (t ∷ ts) o p = ground (
  arith,
  half_open_single_probe c opened ts o p,
  probing_refuses (record c { probe_in_flight = true }) opened ts o refl,
)
