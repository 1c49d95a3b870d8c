-- ===== src/Rtc/Days.antt =====
-- The day number is that of counting years and months one by one.
use muos.Common.{
  ℕ, zero, suc, ◌+◌, ◌-◌, ◌*◌, ◌/◌, ◌≤◌, ◌≡◌, refl, inl, inr, leb, ◌==◌, if◌then◌else◌, arith,
  Bool-cases, not_leb, not_ltb, lt→ltb, le→leb, leb→le, ==_ne,
}
use muos.Common.Int.{sub_ℕ}
use muos.Rtc.{is_leap, month_length, days_in_month, day_of_era, days_from_civil}

-- The days of the years before `y`, and of the months before `m` of the year.
unfoldable pub days_before_year : ℕ → ℕ
days_before_year zero = 0
days_before_year (suc y) =
    let rest = days_before_year y in if is_leap y then rest + 366 else rest + 365

unfoldable pub days_before_month : ℕ → ℕ → ℕ
days_before_month y zero = 0
days_before_month y (suc m) = days_before_month y m + days_in_month y m

days_before_year-closed :
    (y : ℕ) → days_before_year y + (y + 99) / 100 ≡ 365 * y + (y + 3) / 4 + (y + 399) / 400
unfolding days_before_year is_leap
days_before_year-closed zero = omega arith
days_before_year-closed (suc y) = ground (arith, days_before_year-closed y)

-- The days before a month, counted from 1 January of a year that is a leap year or not.
days_before_month-closed :
    (y m : ℕ)
    → 1 ≤ m
    → m ≤ 12
    → days_before_month y m
      ≡ (if leb m 2 then 31 * (m - 1) else (153 * (m - 3) + 2) / 5 + (if is_leap y then 60 else 59))
unfolding days_before_month days_in_month month_length
days_before_month-closed y zero p q = absurd (omega arith)
days_before_month-closed y (suc zero) p q = refl
days_before_month-closed y (suc (suc zero)) p q = refl
days_before_month-closed y (suc (suc (suc zero))) p q = elim (Bool-cases (is_leap y)) [
  | inl e ↦ rw e refl
  | inr e ↦ rw e refl
]
days_before_month-closed y (suc (suc (suc (suc zero)))) p q = elim (Bool-cases (is_leap y)) [
  | inl e ↦ rw e refl
  | inr e ↦ rw e refl
]
days_before_month-closed y (suc (suc (suc (suc (suc zero))))) p q = elim (Bool-cases (is_leap y)) [
  | inl e ↦ rw e refl
  | inr e ↦ rw e refl
]
days_before_month-closed y (suc (suc (suc (suc (suc (suc zero)))))) p q =
    elim (Bool-cases (is_leap y)) [ inl e ↦ rw e refl | inr e ↦ rw e refl ]
days_before_month-closed y (suc (suc (suc (suc (suc (suc (suc zero))))))) p q =
    elim (Bool-cases (is_leap y)) [ inl e ↦ rw e refl | inr e ↦ rw e refl ]
days_before_month-closed y (suc (suc (suc (suc (suc (suc (suc (suc zero)))))))) p q =
    elim (Bool-cases (is_leap y)) [ inl e ↦ rw e refl | inr e ↦ rw e refl ]
days_before_month-closed y (suc (suc (suc (suc (suc (suc (suc (suc (suc zero))))))))) p q =
    elim (Bool-cases (is_leap y)) [ inl e ↦ rw e refl | inr e ↦ rw e refl ]
days_before_month-closed y (suc (suc (suc (suc (suc (suc (suc (suc (suc (suc zero)))))))))) p q =
    elim (Bool-cases (is_leap y)) [ inl e ↦ rw e refl | inr e ↦ rw e refl ]
days_before_month-closed y (suc (suc (suc (suc (suc (suc (suc (suc (suc (suc (suc zero))))))))))) p
      q =
    elim (Bool-cases (is_leap y)) [ inl e ↦ rw e refl | inr e ↦ rw e refl ]
days_before_month-closed y
      (suc (suc (suc (suc (suc (suc (suc (suc (suc (suc (suc (suc zero)))))))))))) p q =
    elim (Bool-cases (is_leap y)) [ inl e ↦ rw e refl | inr e ↦ rw e refl ]
days_before_month-closed y
      (suc (suc (suc (suc (suc (suc (suc (suc (suc (suc (suc (suc (suc m))))))))))))) p q =
    absurd (omega arith)

sub_ℕ-eq : (a b c e : ℕ) → a + e ≡ c + b → sub_ℕ a b ≡ sub_ℕ c e
sub_ℕ-eq a b c e h = ground arith

-- The years that the code counts, from March on.
abbrev era_days : ℕ → ℕ
era_days y =
    y / 400 * 146097
    + ((y - y / 400 * 400) * 365 + (y - y / 400 * 400) / 4 - (y - y / 400 * 400) / 100)

era_days-closed : (y : ℕ) → era_days y + y / 100 ≡ 365 * y + y / 4 + y / 400
era_days-closed y = omega arith

year-era_days : (y : ℕ) → days_before_year (suc y) ≡ era_days y + 366
year-era_days y = omega (arith, era_days-closed y, days_before_year-closed (suc y))

days_before_month-early : (y m : ℕ) → 1 ≤ m → m ≤ 2 → days_before_month y m ≡ 31 * (m - 1)
days_before_month-early y m p q = ground (arith, days_before_month-closed y m p (omega arith))

march_sum :
    (y m d : ℕ)
    → 3 ≤ m
    → m ≤ 12
    → 1 ≤ d
    → era_days y + ((153 * (m - 3) + 2) / 5 + d - 1) + 719528
      ≡ days_before_year y + days_before_month y m + (d - 1) + 719468
unfolding days_before_year
march_sum y m d p q r =
    let k = days_before_month-closed y m (omega arith) q in
    let a = year-era_days y in
    elim (Bool-cases (is_leap y)) [ inl e ↦ ground arith | inr e ↦ ground arith ]

from_march :
    (y m d : ℕ)
    → 3 ≤ m
    → m ≤ 12
    → 1 ≤ d
    → days_from_civil y m d ≡ sub_ℕ (days_before_year y + days_before_month y m + (d - 1)) 719528
unfolding days_from_civil day_of_era
from_march y m d p q r = elim (Bool-cases (y == 0)) [
  | inl e ↦
      rw (e, not_leb m 2 p, lt→ltb 2 m p)
        (sub_ℕ-eq _ 719468 _ 719528 (omega (arith, march_sum y m d p q r)))
  | inr e ↦
      rw (e, not_leb m 2 p, lt→ltb 2 m p)
        (sub_ℕ-eq _ 719468 _ 719528 (omega (arith, march_sum y m d p q r)))
]

before_march :
    (y m d : ℕ)
    → 1 ≤ m
    → m ≤ 2
    → 1 ≤ d
    → days_from_civil (suc y) m d
      ≡ sub_ℕ (days_before_year (suc y) + days_before_month (suc y) m + (d - 1)) 719528
unfolding days_from_civil day_of_era
before_march y m d p q r =
    let k = days_before_month-early (suc y) m p q in
    let a = year-era_days y in
    rw (==_ne (suc y) 0 (λ z. absurd (omega arith)), le→leb m 2 q, not_ltb 2 m q)
      (sub_ℕ-eq _ 719468 _ 719528 (omega arith))

year_zero :
    (m d : ℕ)
    → 1 ≤ m
    → m ≤ 2
    → 1 ≤ d
    → days_from_civil 0 m d ≡ sub_ℕ (days_before_year 0 + days_before_month 0 m + (d - 1)) 719528
unfolding days_from_civil day_of_era days_before_year
year_zero m d p q r =
    let k = days_before_month-early 0 m p q in
    rw (le→leb m 2 q, not_ltb 2 m q) (sub_ℕ-eq _ 865565 _ 719528 (omega arith))

-- On a valid month and day, `days_from_civil` is the number of days before the date, in the Gregorian
-- calendar from the first day of the year 0 on, less those before 1 January 1970.
pub days_from_civil-counted :
    (y m d : ℕ)
    → 1 ≤ m
    → m ≤ 12
    → 1 ≤ d
    → days_from_civil y m d ≡ sub_ℕ (days_before_year y + days_before_month y m + (d - 1)) 719528
unfolding days_from_civil day_of_era
days_from_civil-counted y m d p q r = elim (Bool-cases (leb m 2)) [
  | inl e ↦ early y (leb→le m 2 e)
  | inr e ↦ from_march y m d (ground arith) q r
]
  where
    early :
        (y : ℕ)
        → m ≤ 2
        → days_from_civil y m d
          ≡ sub_ℕ (days_before_year y + days_before_month y m + (d - 1)) 719528
    early zero k = year_zero m d p k r
    early (suc y) k = before_march y m d p k r
