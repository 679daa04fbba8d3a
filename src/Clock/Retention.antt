-- ===== src/Clock/Retention.antt =====
-- src/bluelab/platform/clock.py: the date some months after a date.
use bluelab_backend_prod.Prelude.{ℕ, ◌+◌, ◌*◌, ◌≤◌, ◌≡◌, arith}
use bluelab_backend_prod.Clock.{Calendar, months_later}

-- A period of calendar months moves the month forward by exactly so many months, into a month of
-- the calendar, and the day is kept or cut to the length of that month, never moved past it.
pub months_later-exact :
    (cal : Calendar) (today n : ℕ)
    → 1 ≤ cal.month_of today
    → let (year, month, day) = months_later cal today n in
      (year * 12 + month ≡ cal.year_of today * 12 + cal.month_of today + n)
      × (1 ≤ month)
      × (month ≤ 12)
      × (day ≤ cal.day_of today)
      × (day ≤ cal.days_in year month)
unfolding months_later
months_later-exact cal today n h = ground arith
