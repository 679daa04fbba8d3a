-- ===== src/Clock/Windows.antt =====
-- src/bluelab/platform/clock.py: months and service terms meet without a gap or an overlap.
use bluelab_backend_prod.Prelude.{
  ℕ, ◌+◌, ◌-◌, ◌*◌, ◌≤◌, ◌<◌, ◌≡◌, refl, false, ◌&&◌, ◌==◌, ok, arith, Bool-cases, Result-cases,
  inl, inr,
}
use bluelab_backend_prod.Clock.{
  Zone, Calendar, MonthWindow, a_day, contains, month_start, next_month, month_window,
  prior_month_window, resolve_local_time, service_term_bounds,
}

month_window-ok :
    (cal : Calendar) (zone : Zone) (year month : ℕ) {w : MonthWindow}
    → month_window cal zone year month ≡ ok w
    → (w.year ≡ year)
      × (w.month ≡ month)
      × (month_start cal zone year month ≡ ok w.start)
      × (month_start cal zone (next_month year month).0 (next_month year month).1 ≡ ok w.stop)
unfolding month_window
month_window-ok cal zone year month {w} e = elim (Result-cases (month_start cal zone year month)) [
  | inr (x, bad) ↦ ground arith
  | inl (a, start) ↦
      elim (Result-cases
        (month_start cal zone (next_month year month).0 (next_month year month).1)) [
          | inr (x, bad) ↦ ground arith
          | inl (b, stop) ↦ (ground arith, ground arith, ground arith, ground arith)
        ]
]

month_start-year :
    (cal : Calendar) (zone : Zone) (year month month' : ℕ) {a : ℕ}
    → month_start cal zone year month ≡ ok a
    → (b : ℕ) × (month_start cal zone year month' ≡ ok b)
unfolding month_start
month_start-year cal zone year month month' {a} e =
    (zone.utc (cal.day_number year month' 1 * a_day) false, ground arith)

month_start-earlier :
    (cal : Calendar) (zone : Zone) (year month month' : ℕ) {a : ℕ}
    → 1 < year
    → month_start cal zone year month ≡ ok a
    → (b : ℕ) × (month_start cal zone (year - 1) month' ≡ ok b)
unfolding month_start
month_start-earlier cal zone year month month' {a} late e =
    (zone.utc (cal.day_number (year - 1) month' 1 * a_day) false, ground arith)

-- A window of a month that starts where the next one is known to start.
month_window-of :
    (cal : Calendar) (zone : Zone) (year month a b : ℕ)
    → month_start cal zone year month ≡ ok a
    → month_start cal zone (next_month year month).0 (next_month year month).1 ≡ ok b
    → month_window cal zone year month
      ≡ ok (record { year = year; month = month; start = a; stop = b })
unfolding month_window
month_window-of cal zone year month a b p q = rw p (rw q refl)

next_month-prior :
    (year month : ℕ) → 1 < month → month ≤ 12 → next_month year (month - 1) ≡ (year, month)
unfolding next_month
next_month-prior year month low high =
    let e : month - 1 + 1 ≡ month = omega arith in
    let f : (month - 1 == 12) ≡ false = ground arith in rw f (rw e refl)

next_month-december :
    (year month : ℕ) → month ≡ 1 → 1 ≤ year → next_month (year - 1) 12 ≡ (year, month)
unfolding next_month
next_month-december year month m h = let e : year - 1 + 1 ≡ year = omega arith in rw m (rw e refl)

module _ (cal : Calendar) (zone : Zone) (w : MonthWindow) where
  prior-january :
      w.month ≡ 1
      → 1 ≤ w.year
      → prior_month_window cal zone w ≡ month_window cal zone (w.year - 1) 12
  unfolding prior_month_window
  prior-january m h = let late : (w.year == 0) ≡ false = ground arith in rw (m, late) refl

  prior-later :
      (w.month == 1) ≡ false
      → prior_month_window cal zone w ≡ month_window cal zone w.year (w.month - 1)
  unfolding prior_month_window
  prior-later h = rw h refl

-- The month before starts where it should and stops where the given one starts.
prior-meets :
    (cal : Calendar) (zone : Zone) (year month year' month' a b : ℕ)
    → next_month year' month' ≡ (year, month)
    → month_start cal zone year' month' ≡ ok a
    → month_start cal zone year month ≡ ok b
    → month_window cal zone year' month'
      ≡ ok (record { year = year'; month = month'; start = a; stop = b })
prior-meets cal zone year month year' month' a b e p q =
    month_window-of cal zone year' month' a b p (rw e q)

-- The window of the calendar month before any month after January of year 1 exists, it stops
-- where the window of that month starts, in any zone, and no instant is in both.
pub months_abut :
    (cal : Calendar) (zone : Zone) (year month t : ℕ) {w : MonthWindow}
    → 1 ≤ month
    → month ≤ 12
    → 13 < year * 12 + month
    → month_window cal zone year month ≡ ok w
    → (p : MonthWindow) × (prior_month_window cal zone w ≡ ok p)
      × (p.stop ≡ w.start)
      × ((contains p t && contains w t) ≡ false)
unfolding contains
months_abut cal zone year month t {w} low high after e =
    let (same, month_same, start, stop) = month_window-ok cal zone year month {w = w} e in
    elim (Bool-cases (month == 1)) [
      | inl january ↦
          let (a, started) =
            month_start-earlier cal zone year month 12 {a = w.start} (ground arith) start in
          let m : month ≡ 1 = ground arith in
          (
            record { year = year - 1; month = 12; start = a; stop = w.start },
            rw (prior-january cal zone w (ground arith) (omega arith), same)
                (prior-meets cal zone year month (year - 1) 12 a w.start
                  (next_month-december year month m (ground arith)) started start),
            refl,
            ground arith,
          )
      | inr later ↦
          let (a, started) = month_start-year cal zone year month (month - 1) {a = w.start} start in
          (
            record { year = year; month = month - 1; start = a; stop = w.start },
            rw (prior-later cal zone w (ground arith), same, month_same)
                (prior-meets cal zone year month year (month - 1) a w.start
                  (next_month-prior year month (ground arith) high) started start),
            refl,
            ground arith,
          )
    ]

service_term_bounds-ok :
    (zone : Zone) (first last : ℕ) {x : ℕ × ℕ}
    → service_term_bounds zone first last ≡ ok x
    → (resolve_local_time zone (first * a_day) ≡ ok x.0)
      × (resolve_local_time zone ((last + 1) * a_day) ≡ ok x.1)
      × (x.0 < x.1)
unfolding service_term_bounds
service_term_bounds-ok zone first last {x} e =
    elim (Result-cases (resolve_local_time zone (first * a_day))) [
      | inr (bad, failed) ↦ ground arith
      | inl (a, start) ↦ elim (Result-cases (resolve_local_time zone ((last + 1) * a_day))) [
        | inr (bad, failed) ↦ ground arith
        | inl (b, stop) ↦ (ground arith, ground arith, ground arith)
      ]
    ]

-- Service terms that follow each other day by day meet: the second starts at the very instant at
-- which the first ends, and both last for some time.
pub service_terms_abut :
    (zone : Zone) (first last end : ℕ) {x y : ℕ × ℕ}
    → service_term_bounds zone first last ≡ ok x
    → service_term_bounds zone (last + 1) end ≡ ok y
    → (x.1 ≡ y.0) × (x.0 < x.1) × (y.0 < y.1)
service_terms_abut zone first last end {x} {y} p q =
    let (one, two, wide) = service_term_bounds-ok zone first last {x = x} p in
    let (three, four, wide') = service_term_bounds-ok zone (last + 1) end {x = y} q in
    (ground arith, wide, wide')
