-- ===== src/Clock/Gap.antt =====
-- src/bluelab/platform/clock.py, `resolve_local_time`: the instant of a local time.
use bluelab_backend_prod.Prelude.{
  ℕ, zero, suc, ◌+◌, ◌-◌, ◌/◌, ◌%◌, ◌≤◌, ◌<◌, ◌≡◌, sym, ap, min, max, Bool, true, false, ◌&&◌, none,
  some, [], ◌==◌, ltb, leb, ok, arith, Bool-cases, inl, inr,
}
use bluelab_backend_prod.Clock.{
  Zone, a_day, half, search, latest, valid, resolve_missing, resolve_local_time,
}

half-between : (d : ℕ) → 1 < d → (1 ≤ half d) × (half d < d)
unfolding half
half-between d h = elim (Bool-cases ((d % 2 == 1) && (d / 2 % 2 == 1))) [
  | inl up ↦ (rw up (omega arith), rw up (ground arith))
  | inr down ↦ (rw down (omega arith), rw down (omega arith))
]

-- With fuel for the width, the search ends at an instant of the range where the local time has
-- just passed the one that is sought.
pub search-crosses :
    (zone : Zone) (local fuel lower upper : ℕ)
    → upper - lower ≤ fuel
    → lower < upper
    → zone.local lower < local
    → local ≤ zone.local upper
    → let t = search zone local fuel lower upper in
      (lower < t) × (t ≤ upper) × (zone.local (t - 1) < local) × (local ≤ zone.local t)
unfolding search
search-crosses zone local zero lower upper enough wide before after = omega arith
search-crosses zone local (suc fuel) lower upper enough wide before after =
    elim (Bool-cases (ltb 1 (upper - lower))) [
      | inr close ↦
          let next : upper - 1 ≡ lower = ground arith in
          rw close (wide, omega arith, rw next before, after)
      | inl far ↦
          let (low, high) = half-between (upper - lower) (ground arith) in
          let mid = lower + half (upper - lower) in
          elim (Bool-cases (leb local (zone.local mid))) [
            | inl late ↦
                let (a, b, c, d) =
                  search-crosses zone local fuel lower mid (omega arith) (omega arith) before
                    (ground arith) in
                rw (far, late) (a, omega arith, c, d)
            | inr early ↦
                let (a, b, c, d) =
                  search-crosses zone local fuel mid upper (omega arith) (omega arith)
                    (ground arith) after in
                rw (far, early) (omega arith, b, c, d)
          ]
    ]

latest-is :
    (zone : Zone) (local a b : ℕ)
    → zone.local a ≡ local
    → zone.local b ≡ local
    → zone.local (max a b) ≡ local
latest-is zone local a b p q = elim (Bool-cases (leb a b)) [
  | inl second ↦ (let e : max a b ≡ b = ground arith in rw e q)
  | inr first ↦ (let e : max a b ≡ a = ground arith in rw e p)
]

fold_below :
    (zone : Zone) (local : ℕ) (fold : Bool)
    → zone.utc local fold ≤ max (zone.utc local false) (zone.utc local true)
fold_below zone local true = ground arith
fold_below zone local false = ground arith

-- A local time that exists, under either fold, is resolved to an instant at which it is that local
-- time, and of the two folds to the later one.
pub existing_time_resolved :
    (zone : Zone) (local : ℕ) (fold : Bool)
    → zone.local (zone.utc local fold) ≡ local
    → (t : ℕ) × (resolve_local_time zone local ≡ ok t)
      × (zone.local t ≡ local)
      × (zone.utc local fold ≤ t)
unfolding resolve_local_time valid latest
existing_time_resolved zone local fold exists =
    elim (Bool-cases (zone.local (zone.utc local false) == local)) [
      | inl first ↦ elim (Bool-cases (zone.local (zone.utc local true) == local)) [
        | inl second ↦ (
          max (zone.utc local false) (zone.utc local true),
          ground arith,
          latest-is zone local (zone.utc local false) (zone.utc local true) (ground arith)
              (ground arith),
          fold_below zone local fold,
        )
        | inr unused ↦ elim (Bool-cases fold) [
          | inl late ↦ (let e = ap (λ f. zone.local (zone.utc local f)) late in ground arith)
          | inr early ↦ (zone.utc local false, ground arith, ground arith, rw early (omega arith))
        ]
      ]
      | inr unused ↦ elim (Bool-cases fold) [
        | inl late ↦ (
          zone.utc local true,
          (let e = ap (λ f. zone.local (zone.utc local f)) late in ground arith),
          (let e = ap (λ f. zone.local (zone.utc local f)) late in ground arith),
          rw late (omega arith),
        )
        | inr early ↦ (let e = ap (λ f. zone.local (zone.utc local f)) early in ground arith)
      ]
    ]

-- The conversion does not run backwards between two instants.
pub record IsForward (zone : Zone) (lower upper : ℕ) : Type 0 where
  pub forward : (s t : ℕ) → lower ≤ s → s ≤ t → t ≤ upper → zone.local s ≤ zone.local t

wide_gap :
    (zone : Zone) (local lower upper : ℕ)
    → lower ≤ upper
    → zone.local lower < local
    → local ≤ zone.local upper
    → lower < upper
wide_gap zone local lower upper h before after = elim (Bool-cases (lower == upper)) [
  | inl same ↦
      let e : zone.local lower ≡ zone.local upper = ap zone.local (ground arith) in omega arith
  | inr other ↦ ground arith
]

resolve_local_time-missing :
    (zone : Zone) (local : ℕ)
    → valid zone local ≡ []
    → resolve_local_time zone local
      ≡ resolve_missing zone local
          (min (zone.utc local false) (zone.utc local true))
          (max (zone.utc local false) (zone.utc local true))
unfolding resolve_local_time
resolve_local_time-missing zone local h =
    ap
      (λ ts. elim (latest ts) [
        | some t ↦ ok t
        | none ↦
            resolve_missing zone local (min (zone.utc local false) (zone.utc local true))
              (max (zone.utc local false) (zone.utc local true))
      ])
      h

resolve_missing-ok :
    (zone : Zone) (local lower upper : ℕ)
    → let t = search zone local (upper - lower) lower upper in
      local ≤ zone.local upper
      → local ≤ zone.local t
      → zone.local t ≤ zone.local upper
      → zone.local upper / a_day ≡ local / a_day
      → resolve_missing zone local lower upper ≡ ok t
unfolding resolve_missing
resolve_missing-ok zone local lower upper after d below day =
    let t = search zone local (upper - lower) lower upper in
    let same : zone.local t / a_day ≡ local / a_day = omega arith in ground arith

-- A local time that a forward jump of the clock skips is resolved to the first instant after the
-- jump: between its two folds, the instants before the result are exactly those whose local time is
-- still before it. The jump starts before the local time, ends on the same date, and there is no
-- backward one between the folds.
pub missing_time_resolved :
    (zone : Zone) (local lower upper s : ℕ)
    → valid zone local ≡ []
    → lower ≡ min (zone.utc local false) (zone.utc local true)
    → upper ≡ max (zone.utc local false) (zone.utc local true)
    → zone.local lower < local
    → local ≤ zone.local upper
    → zone.local upper / a_day ≡ local / a_day
    → IsForward zone lower upper
    → lower ≤ s
    → s ≤ upper
    → (t : ℕ) × (resolve_local_time zone local ≡ ok t) × (ltb s t ≡ ltb (zone.local s) local)
missing_time_resolved zone local lower upper s missing low high before after day f from till =
    let wide = wide_gap zone local lower upper (omega arith) before after in
    let (a, b, c, d) =
      search-crosses zone local (upper - lower) lower upper (omega arith) wide before after in
    let t = search zone local (upper - lower) lower upper in
    let below : zone.local t ≤ zone.local upper = f.forward t upper (omega arith) b (omega arith) in
    (
      t,
      rw (resolve_local_time-missing zone local missing, sym low, sym high)
          (resolve_missing-ok zone local lower upper after d below day),
      elim (Bool-cases (ltb s t)) [
        | inl sooner ↦
            let e : zone.local s ≤ zone.local (t - 1) =
              f.forward s (t - 1) from (ground arith) (omega arith) in
            ground arith
        | inr later ↦
            let e : zone.local t ≤ zone.local s = f.forward t s (omega arith) (ground arith) till in
            ground arith
      ],
    )
