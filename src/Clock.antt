-- ===== src/Clock.antt =====
-- src/bluelab/platform/clock.py: months, due dates, service terms and retention in the time zone of
-- an organisation. Instants and local times are microseconds since the start of year 1, dates are
-- days since then; the zone database and the calendar are parameters. A month label is its year
-- and month.
pub mod Gap
pub mod Windows
pub mod Retention
mod Examples
use bluelab_backend_prod.Prelude.{
  ℕ, zero, suc, ◌+◌, ◌-◌, ◌*◌, ◌/◌, ◌%◌, min, max, Bool, true, false, ◌&&◌, ◌||◌, not, Option, none,
  some, List, [], ◌∷◌, ◌==◌, ltb, leb, keep, if◌then◌else◌, Result, ok, err, ◌>>=◌, ◌>>◌, raise_if,
  or_raise,
}

-- `t.astimezone(zone).replace(tzinfo=None)`, and `l.replace(tzinfo=zone, fold=f).astimezone(UTC)`.
pub record Zone : Type 0 where
  pub local : ℕ → ℕ
  pub utc : ℕ → Bool → ℕ

-- The proleptic calendar of `date`.
pub record Calendar : Type 0 where
  pub year_of : ℕ → ℕ
  pub month_of : ℕ → ℕ
  pub day_of : ℕ → ℕ
  pub day_number : ℕ → ℕ → ℕ → ℕ
  -- monthrange(year, month)[1]
  pub days_in : ℕ → ℕ → ℕ

pub data ClockError : Type 0 where
  out_of_range overflow no_successor no_instant wrong_order no_interval bad_period : ClockError

-- timedelta(days=1)
abbrev pub a_day : ℕ
a_day = 86400000000

-- A sum that passes the end of year 9999 is an OverflowError, which is no ValueError.
unfoldable pub in_range : ℕ → Result ClockError ℕ
in_range l = if ltb l (3652059 * a_day) then ok l else err overflow

-- A half-open range of instants.
pub record MonthWindow : Type 0 where
  pub year : ℕ
  pub month : ℕ
  pub start : ℕ
  pub stop : ℕ

unfoldable pub contains : MonthWindow → ℕ → Bool
contains w t = leb w.start t && ltb t w.stop

-- datetime(year, month, 1, tzinfo=zone).astimezone(UTC)
unfoldable pub month_start : Calendar → Zone → ℕ → ℕ → Result ClockError ℕ
month_start cal zone year month =
    if (year == 0) || ltb 9999 year
    then err out_of_range
    else ok (zone.utc (cal.day_number year month 1 * a_day) false)

unfoldable pub next_month : ℕ → ℕ → ℕ × ℕ
next_month year month = if month == 12 then (year + 1, 1) else (year, month + 1)

unfoldable pub month_window : Calendar → Zone → ℕ → ℕ → Result ClockError MonthWindow
unfolding month_start next_month
month_window cal zone year month = do
  start ← month_start cal zone year month
  stop ← month_start cal zone (next_month year month).0 (next_month year month).1
  ok (record { year = year; month = month; start = start; stop = stop })

-- In year 0 the label of a month before January is negative, and refused.
unfoldable pub prior_month_window : Calendar → Zone → MonthWindow → Result ClockError MonthWindow
unfolding month_window
prior_month_window cal zone w =
    if w.month == 1
    then (if w.year == 0 then err out_of_range else month_window cal zone (w.year - 1) 12)
    else month_window cal zone w.year (w.month - 1)

unfoldable pub current_month_label : Calendar → Zone → ℕ → ℕ × ℕ
current_month_label cal zone at =
    let today = zone.local at / a_day in (cal.year_of today, cal.month_of today)

unfoldable pub due_date_deadline : Zone → ℕ → Result ClockError ℕ
unfolding in_range
due_date_deadline zone due = do
  next_day ← in_range ((due + 1) * a_day)
  ok (zone.utc next_day false)

-- (upper - lower) / 2: a timedelta is divided to the nearest, ties to even
unfoldable pub half : ℕ → ℕ
half d = if (d % 2 == 1) && (d / 2 % 2 == 1) then d / 2 + 1 else d / 2

-- The search loop, on fuel.
unfoldable pub search : Zone → ℕ → ℕ → ℕ → ℕ → ℕ
unfolding half
search zone local zero lower upper = upper
search zone local (suc fuel) lower upper =
    let midpoint = lower + half (upper - lower) in
    let late = leb local (zone.local midpoint) in
    let rest =
      search zone local fuel (if late then lower else midpoint)
        (if late then midpoint else upper) in
    if ltb 1 (upper - lower) then rest else upper

-- max(valid)
unfoldable pub latest : List ℕ → Option ℕ
latest [] = none
latest (t ∷ ts) = elim (latest ts) [ none ↦ some t | some u ↦ some (max t u) ]

-- the candidates that are the local time
unfoldable pub valid : Zone → ℕ → List ℕ
valid zone local =
    keep (λ t. zone.local t == local) (zone.utc local false ∷ zone.utc local true ∷ [])

-- the branch of a local time that does not exist
unfoldable pub resolve_missing : Zone → ℕ → ℕ → ℕ → Result ClockError ℕ
unfolding search
resolve_missing zone local lower upper =
    let t = search zone local (upper - lower) lower upper in
    if ltb (zone.local upper) local
    then err no_successor
    else if zone.local t / a_day == local / a_day
    then ok t
    else err no_instant

unfoldable pub resolve_local_time : Zone → ℕ → Result ClockError ℕ
unfolding valid latest resolve_missing
resolve_local_time zone local =
    let a = zone.utc local false in
    let b = zone.utc local true in
    elim (latest (valid zone local)) [
      | some t ↦ ok t
      | none ↦ resolve_missing zone local (min a b) (max a b)
    ]

unfoldable pub service_term_bounds : Zone → ℕ → ℕ → Result ClockError (ℕ × ℕ)
unfolding resolve_local_time in_range
service_term_bounds zone start_on last_access_on = do
  raise_if (ltb last_access_on start_on) wrong_order
  starts_at ← resolve_local_time zone (start_on * a_day)
  midnight ← in_range ((last_access_on + 1) * a_day)
  ends_at ← resolve_local_time zone midnight
  raise_if (leb ends_at starts_at) no_interval
  ok (starts_at, ends_at)

pub data RetentionUnit : Type 0 where
  elapsed_days calendar_days calendar_months : RetentionUnit

-- The year, month and day some months after a date.
unfoldable pub months_later : Calendar → ℕ → ℕ → ℕ × ℕ × ℕ
months_later cal today n =
    let month_index = cal.year_of today * 12 + cal.month_of today - 1 + n in
    let year = month_index / 12 in
    let month = month_index % 12 + 1 in
    (year, month, min (cal.day_of today) (cal.days_in year month))

-- `local.replace(year=year, month=month, day=…)`
unfoldable pub move_months : Calendar → ℕ → ℕ → Result ClockError ℕ
unfolding months_later
move_months cal local n =
    let (year, month, day) = months_later cal (local / a_day) n in
    if ltb 9999 year
    then err out_of_range
    else ok (cal.day_number year month day * a_day + local % a_day)

unfoldable pub retention_deadline :
    Calendar → ℕ → ℕ → RetentionUnit → Option Zone → Result ClockError ℕ
unfolding resolve_local_time in_range move_months
retention_deadline cal cutoff value unit zone = do
  raise_if (value == 0) bad_period
  elim unit [
    | elapsed_days ↦ elim zone [
      | some z ↦ err bad_period
      | none ↦ in_range (cutoff + value * a_day)
    ]
    | calendar_days ↦ elim zone [
      | none ↦ err bad_period
      | some z ↦ in_range (z.local cutoff + value * a_day) >>= λ target. resolve_local_time z target
    ]
    | calendar_months ↦ elim zone [
      | none ↦ err bad_period
      | some z ↦ move_months cal (z.local cutoff) value >>= λ target. resolve_local_time z target
    ]
  ]
