-- ===== src/Clock/Examples.antt =====
-- Runs of src/bluelab/platform/clock.py that meet the hypotheses of its theorems: a zone whose
-- clock jumps forward by ten microseconds at instant 100, and a calendar with months of 31 days.
use bluelab_backend_prod.Prelude.{
  ℕ, ◌+◌, ◌-◌, ◌*◌, ◌/◌, ◌%◌, ◌≡◌, refl, ltb, if◌then◌else◌, ok, arith,
}
use bluelab_backend_prod.Clock.{Zone, Calendar, MonthWindow, a_day, valid, resolve_local_time}
use bluelab_backend_prod.Clock.Gap.{IsForward, missing_time_resolved}

abbrev zone : Zone
zone = record {
  local = λ t. if ltb t 100 then t else t + 10;
  utc =
      λ l fold. if ltb l 100 then l else if ltb l 110 then (if fold then l - 10 else l) else l - 10;
}

abbrev calendar : Calendar
calendar = record {
  year_of = λ d. d / 372;
  month_of = λ d. d % 372 / 31 + 1;
  day_of = λ d. d % 31 + 1;
  day_number = λ y m d. y * 372 + (m - 1) * 31 + (d - 1);
  days_in = λ y m. 31;
}

zone-IsForward : IsForward zone 95 105
zone-IsForward = record { forward = λ s t from after till. ground arith }

missing_time_resolved_example :
    (t : ℕ) × (resolve_local_time zone 105 ≡ ok t) × (ltb 99 t ≡ ltb (zone.local 99) 105)
unfolding valid
missing_time_resolved_example =
    missing_time_resolved zone 105 95 105 99 refl refl refl (omega arith) (omega arith) refl
      zone-IsForward (omega arith) (omega arith)

abbrev march : MonthWindow
march = record { year = 2; month = 3; start = 806 * a_day - 10; stop = 837 * a_day - 10 }

abbrev one_day : ℕ × ℕ
one_day = (a_day - 10, 2 * a_day - 10)

abbrev day_after : ℕ × ℕ
day_after = (2 * a_day - 10, 3 * a_day - 10)
