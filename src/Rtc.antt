-- ===== src/Rtc.antt =====
-- The calendar arithmetic of src/rtc.c. What the clock's registers hold comes as an argument; the ports
-- and the waiting for the end of an update are not modelled.
pub mod Days
mod Tests
use muos.Common.{
  ℕ, zero, suc, ◌+◌, ◌-◌, ◌*◌, ◌/◌, ◌%◌, ◌^◌, Bool, true, false, not, ◌&&◌, ◌||◌, Option, none,
  some, ltb, leb, ◌==◌, if◌then◌else◌, u32,
}
use muos.Common.Int.{ℤ, pos, negsuc, sub_ℕ}

-- `rtc_datetime_t`
pub record Datetime : Type 0 where
  pub year : ℕ
  pub month : ℕ
  pub day : ℕ
  pub hour : ℕ
  pub minute : ℕ
  pub second : ℕ

pub bcd_to_bin : ℕ → ℕ
bcd_to_bin v = (v % 16 + v / 16 * 10) % 256

pub is_leap : ℕ → Bool
is_leap y = ((y % 4 == 0) && not (y % 100 == 0)) || (y % 400 == 0)

-- The table `days`, by the number of the month.
pub month_length : ℕ → ℕ
month_length m =
    if m == 2 then 28 else if (m == 4) || ((m == 6) || ((m == 9) || (m == 11))) then 30 else 31

pub days_in_month : ℕ → ℕ → ℕ
days_in_month y m =
    if ltb m 1 || ltb 12 m then 0 else if (m == 2) && is_leap y then 29 else month_length m

-- `yoe * 365 + yoe / 4 - yoe / 100 + doy`
pub day_of_era : ℕ → ℕ → ℕ → ℕ
day_of_era yoe m d =
    let doy = (153 * (if ltb 2 m then m - 3 else m + 9) + 2) / 5 + d - 1 in
    yoe * 365 + yoe / 4 - yoe / 100 + doy

-- The year is counted from March. It is negative, -1, only for January and February of the year 0,
-- where the era is -1 and the year of the era 399.
pub days_from_civil : ℕ → ℕ → ℕ → ℤ
days_from_civil year m d =
    let y = if leb m 2 then year - 1 else year in
    if (year == 0) && leb m 2
    then sub_ℕ (day_of_era 399 m d) (146097 + 719468)
    else sub_ℕ (y / 400 * 146097 + day_of_era (y - y / 400 * 400) m d) 719468

pub rtc_datetime_to_epoch : Datetime → ℕ
rtc_datetime_to_epoch t =
    if ltb t.month 1
      || (ltb 12 t.month || (ltb t.day 1 || ltb (days_in_month t.year t.month) t.day))
    then 0
    else if ltb 23 t.hour || (ltb 59 t.minute || ltb 59 t.second)
    then 0
    else elim (days_from_civil t.year t.month t.day) [
      | negsuc n ↦ 0
      | pos days ↦ u32 (days * 86400 + t.hour * 3600 + t.minute * 60 + t.second)
    ]

-- The bytes that `rtc_read_datetime` reads.
pub record Cmos : Type 0 where
  pub second : ℕ
  pub minute : ℕ
  pub hour : ℕ
  pub day : ℕ
  pub month : ℕ
  pub year : ℕ
  pub century : ℕ
  pub status : ℕ

-- A byte as a number: `status & 0x04` says that it is one already.
abbrev pub to_bin : Cmos → ℕ → ℕ
to_bin c v = if c.status / 4 % 2 == 0 then bcd_to_bin v else v

-- The hour, from 12 or 24 hours; bit 7 is `pm`.
pub read_hour : Cmos → ℕ
read_hour c =
    let hour = to_bin c (c.hour % 128) in
    let hour' = if hour == 12 then 0 else hour in
    if c.status / 2 % 2 == 0
    then (if c.hour / 128 % 2 == 0 then hour' else (hour' + 12) % 256)
    else hour

-- `rtc_read_datetime` of registers that are read outside an update.
pub rtc_read_datetime : Cmos → Option Datetime
rtc_read_datetime c =
    let month = to_bin c c.month in
    let day = to_bin c c.day in
    let year = to_bin c c.year in
    let century = to_bin c c.century in
    let minute = to_bin c c.minute in
    let second = to_bin c c.second in
    if ltb month 1 || (ltb 12 month || (ltb day 1 || ltb (days_in_month (2000 + year) month) day))
    then none
    else if leb 24 (read_hour c) || (leb 60 minute || leb 60 second)
    then none
    else some (record {
      year = if leb 19 century && leb century 21 then century * 100 + year else 2000 + year;
      month = month;
      day = day;
      hour = read_hour c;
      minute = minute;
      second = second;
    })

-- `rtc_now`
pub rtc_now : Cmos → ℕ
rtc_now c = elim (rtc_read_datetime c) [ none ↦ 0 | some t ↦ rtc_datetime_to_epoch t ]
