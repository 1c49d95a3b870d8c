-- ===== src/Rtc/Tests.antt =====
-- Runs of the calendar of src/rtc.c, and the theorems at them.
use muos.Common.{◌+◌, ◌≡◌, refl, arith}
use muos.Common.Int.{pos, sub_ℕ}
use muos.Rtc.{
  is_leap, month_length, days_in_month, day_of_era, days_from_civil, rtc_datetime_to_epoch,
}
use muos.Rtc.Days.{days_before_year, days_before_month, days_from_civil-counted}

-- 1 March 2000 is day 11017.
runs :
    (days_from_civil 1970 1 1 ≡ pos 0)
    × (days_from_civil 2000 3 1 ≡ pos 11017)
    × (rtc_datetime_to_epoch
          (record { year = 2026; month = 1; day = 1; hour = 0; minute = 0; second = 1 })
        ≡ 1767225601)
unfolding days_from_civil day_of_era rtc_datetime_to_epoch days_in_month month_length is_leap
runs = (refl, refl, refl)

days_from_civil-counted_example :
    days_from_civil 2000 3 1 ≡ sub_ℕ (days_before_year 2000 + days_before_month 2000 3 + 0) 719528
days_from_civil-counted_example =
    days_from_civil-counted 2000 3 1 (omega arith) (omega arith) (omega arith)
