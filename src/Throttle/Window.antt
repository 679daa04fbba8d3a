-- ===== src/Throttle/Window.antt =====
-- src/bluelab/platform/security/throttle.py: what the fixed window admits.
use bluelab_backend_prod.Prelude.{
  ℕ, suc, ◌+◌, ◌-◌, ◌*◌, ◌^◌, ◌≤◌, ◌<◌, ◌≡◌, refl, min, true, Option, none, some, List, [], ◌∷◌,
  ltb, length, is_none, if◌then◌else◌, arith,
}
use bluelab_backend_prod.Prelude.Equality.{Eq}
use bluelab_backend_prod.Valkey.{Keyspace, Counters}
use bluelab_backend_prod.Throttle.{Limit, count, hit, record_failure}

-- Times in order from `from` on, all before `until`.
abbrev pub IsWithin : ℕ → ℕ → List ℕ → Type 0
IsWithin from until [] = Unit
IsWithin from until (t ∷ ts) = (from ≤ t) × (t < until) × IsWithin t until ts

abbrev pub last_of : ℕ → List ℕ → ℕ
last_of now [] = now
last_of now (t ∷ ts) = last_of t ts

module _ (K : Type 0) ⦃e : Eq K⦄ (cs : Counters K) (k : K) where
  same_key : e.beq k k ≡ true
  same_key = (e.beq_iff k k).1 refl

  count-running :
      (s : cs.Store) (from now n until window : ℕ)
      → cs.read s from k ≡ some (n, some until)
      → from ≤ now
      → now < until
      → ((count K cs s now k window).1 ≡ suc n)
        × (cs.read (count K cs s now k window).0 now k ≡ some (suc n, some until))
  unfolding count
  count-running s from now n until window running after before =
      let here : cs.read s now k ≡ some (n, some until) =
        ground (arith, cs.read_later s from now k after) in
      let more : cs.read (cs.incr s now k) now k ≡ some (suc n, some until) =
        ground (arith, cs.read-incr s now now k k (omega arith), same_key) in
      (
        ground arith,
        ground
            (arith, cs.read-expire_nx (cs.incr s now k) now now k k window (omega arith), same_key),
      )

  count-first :
      (s : cs.Store) (now window : ℕ)
      → cs.read s now k ≡ none
      → 0 < window
      → ((count K cs s now k window).1 ≡ 1)
        × (cs.read (count K cs s now k window).0 now k ≡ some (1, some (now + 1000 * window)))
  unfolding count
  count-first s now window absent long =
      let more : cs.read (cs.incr s now k) now k ≡ some (1, none) =
        ground (arith, cs.read-incr s now now k k (omega arith), same_key) in
      (
        ground arith,
        ground
            (arith, cs.read-expire_nx (cs.incr s now k) now now k k window (omega arith), same_key),
      )

  -- How many of the hits at the given times are within the limit.
  unfoldable pub allowed : cs.Store → Limit → List ℕ → ℕ
  allowed s limit [] = 0
  allowed s limit (t ∷ ts) =
      (if is_none (hit K cs s t t k limit).1 then 1 else 0)
      + allowed (hit K cs s t t k limit).0 limit ts

  -- The counters after the hits, and the time of the last one.
  unfoldable pub after_hits : cs.Store → Limit → List ℕ → cs.Store
  after_hits s limit [] = s
  after_hits s limit (t ∷ ts) = after_hits (hit K cs s t t k limit).0 limit ts

  allowed-running :
      (s : cs.Store) (limit : Limit) (from n until : ℕ) (ts : List ℕ)
      → cs.read s from k ≡ some (n, some until)
      → IsWithin from until ts
      → (allowed s limit ts ≡ min (limit.attempts - n) (length ts))
        × (cs.read (after_hits s limit ts) (last_of from ts) k ≡ some (n + length ts, some until))
  unfolding allowed after_hits hit
  allowed-running s limit from n until [] running within = (ground arith, ground (arith, running))
  allowed-running s limit from n until (t ∷ ts) running (after, before, rest) =
      let one = count-running s from t n until limit.window_seconds running after before in
      let ih =
        allowed-running (count K cs s t k limit.window_seconds).0 limit t (suc n) until ts one.1
          rest in
      (ground (arith, one.0, ih.0), ground (arith, ih.1))

  -- Of the hits of one window, in order from the one that opens it, exactly the first ones up to
  -- the limit are allowed; and after the last one all are counted, and the counter still ends where
  -- the first one set its end.
  pub window_allows :
      (s : cs.Store) (limit : Limit) (now : ℕ) (ts : List ℕ)
      → cs.read s now k ≡ none
      → 0 < limit.window_seconds
      → IsWithin now (now + 1000 * limit.window_seconds) ts
      → (allowed s limit (now ∷ ts) ≡ min limit.attempts (suc (length ts)))
        × (cs.read (after_hits s limit (now ∷ ts)) (last_of now ts) k
            ≡ some (suc (length ts), some (now + 1000 * limit.window_seconds)))
  unfolding allowed after_hits hit
  window_allows s limit now ts absent long within =
      let one = count-first s now limit.window_seconds absent long in
      let rest =
        allowed-running (count K cs s now k limit.window_seconds).0 limit now 1
          (now + 1000 * limit.window_seconds) ts one.1 within in
      (ground (arith, one.0, rest.0), ground (arith, rest.1))

  module _ (holds : Keyspace K ℕ) (hold : K) (threshold window base maximum : ℕ) where
    -- What the failures at the given times return.
    unfoldable pub delays : cs.Store × holds.Store → List ℕ → List (Option ℕ)
    delays sh [] = []
    delays sh (t ∷ ts) =
        let run = record_failure K cs holds sh t t k hold threshold window base maximum in
        run.1 ∷ delays run.0 ts

    -- The delays that failures from the `n`-th on should get.
    unfoldable pub doubling : ℕ → List ℕ → List (Option ℕ)
    doubling n [] = []
    doubling n (t ∷ ts) =
        (if ltb n threshold then none else some (min maximum (base * 2 ^ (n - threshold))))
        ∷ doubling (suc n) ts

    record_failure-counts :
        (s : cs.Store) (h : holds.Store) (t : ℕ)
        → let run = record_failure K cs holds (s, h) t t k hold threshold window base maximum in
          let c = count K cs s t k window in
          (run.0.0 ≡ c.0)
          × (run.1 ≡ (
              if ltb c.1 threshold
              then none
              else some (min maximum (base * 2 ^ (c.1 - threshold)))))
    unfolding record_failure
    record_failure-counts s h t = ground arith

    delays-running :
        (s : cs.Store) (h : holds.Store) (from n until : ℕ) (ts : List ℕ)
        → cs.read s from k ≡ some (n, some until)
        → IsWithin from until ts
        → delays (s, h) ts ≡ doubling (suc n) ts
    unfolding delays doubling
    delays-running s h from n until [] running within = refl
    delays-running s h from n until (t ∷ ts) running (after, before, rest) =
        let one = count-running s from t n until window running after before in
        let run = record_failure K cs holds (s, h) t t k hold threshold window base maximum in
        let counts = record_failure-counts s h t in
        let here : cs.read run.0.0 t k ≡ some (suc n, some until) = rw counts.0 one.1 in
        let ih = delays-running run.0.0 run.0.1 t (suc n) until ts here rest in
        ground (arith, counts.1, one.0, ih)

    -- The failures of one window, in order from the one that opens it: those below the threshold
    -- set no hold, and from the threshold on each hold is twice the one before, up to the
    -- maximum.
    pub delays_double :
        (s : cs.Store) (h : holds.Store) (now : ℕ) (ts : List ℕ)
        → cs.read s now k ≡ none
        → 0 < window
        → IsWithin now (now + 1000 * window) ts
        → delays (s, h) (now ∷ ts) ≡ doubling 1 (now ∷ ts)
    unfolding delays doubling
    delays_double s h now ts absent long within =
        let one = count-first s now window absent long in
        let run = record_failure K cs holds (s, h) now now k hold threshold window base maximum in
        let counts = record_failure-counts s h now in
        let here : cs.read run.0.0 now k ≡ some (1, some (now + 1000 * window)) =
          rw counts.0 one.1 in
        let rest = delays-running run.0.0 run.0.1 now 1 (now + 1000 * window) ts here within in
        ground (arith, counts.1, one.0, rest)
