-- ===== src/Throttle.antt =====
-- src/bluelab/platform/security/throttle.py: attempt counters with a fixed window, and
-- exponential holds. A key is what `_key` makes of a bucket and a hashed subject; `now` is when a
-- pipeline runs, in milliseconds, and `later` when the command after it does.
pub mod Window
mod Examples
use bluelab_backend_prod.Prelude.{
  ℕ, ◌+◌, ◌-◌, ◌*◌, ◌/◌, ◌^◌, min, max, Bool, true, false, Option, none, some, ltb, leb,
  if◌then◌else◌,
}
use bluelab_backend_prod.Prelude.Equality.{Eq}
use bluelab_backend_prod.Prelude.Int.{ℤ, pos, pos_part, ltb_ℤ}
use bluelab_backend_prod.Valkey.{Counters, Keyspace}

pub record Limit : Type 0 where
  pub attempts : ℕ
  pub window_seconds : ℕ

abbrev pub value_of : Option (ℕ × Option ℕ) → ℕ
value_of none = 0
value_of (some (n, d)) = n

-- int(remaining) if remaining and int(remaining) > 0 else window_seconds
unfoldable pub retry_after : ℤ → Limit → ℕ
retry_after remaining limit =
    if ltb_ℤ (pos 0) remaining then pos_part remaining else limit.window_seconds

module _ (K : Type 0) ⦃e : Eq K⦄ (cs : Counters K) where
  -- The pipeline: INCR, then EXPIRE NX; the reply is the count.
  unfoldable pub count : cs.Store → ℕ → K → ℕ → cs.Store × ℕ
  count s now k window =
      let more = cs.incr s now k in (cs.expire_nx more now k window, value_of (cs.read more now k))

  unfoldable pub hit : cs.Store → ℕ → ℕ → K → Limit → cs.Store × Option ℕ
  unfolding count retry_after
  hit s now later k limit =
      let (s', counted) = count s now k limit.window_seconds in
      (
        s',
        if leb counted limit.attempts then none else some (retry_after (cs.ttl s' later k) limit),
      )

  unfoldable pub clear : cs.Store → ℕ → K → cs.Store
  clear s now k = cs.delete s now k

  module _ (holds : Keyspace K ℕ) where
    -- `k` is the key of the failures and `hold` that of the hold, whose value is 1.
    unfoldable pub record_failure :
        cs.Store × holds.Store
        → ℕ
        → ℕ
        → K
        → K
        → (threshold window base maximum : ℕ) → (cs.Store × holds.Store) × Option ℕ
    unfolding count
    record_failure (s, h) now later k hold threshold window base maximum =
        let (s', failures) = count s now k window in
        let delay = min maximum (base * 2 ^ (failures - threshold)) in
        if ltb failures threshold
        then ((s', h), none)
        else ((s', holds.set h later hold 1 delay), some delay)

    unfoldable pub clear_failures : cs.Store × holds.Store → ℕ → K → K → cs.Store × holds.Store
    clear_failures (s, h) now k hold = (cs.delete s now k, holds.delete h now hold)

-- max(1, (remaining_ms + 999) // 1000), unless nothing remains
unfoldable pub backoff_seconds : ℤ → Option ℕ
backoff_seconds remaining_ms =
    if ltb_ℤ (pos 0) remaining_ms then some (max 1 ((pos_part remaining_ms + 999) / 1000)) else none
