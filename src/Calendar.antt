-- ===== src/Calendar.antt =====
-- The calendar of ps2/calendar.c and its header. Years and weekdays are not negative.
mod Mondays
mod Examples
use cse.Base.{ℕ, zero, suc, ◌+◌, ◌-◌, ◌%◌, Bool, ◌||◌, ◌&&◌, not, ◌==◌, if◌then◌else◌}
use cse.Base.Int.{ℤ, pos, negsuc}

abbrev pub monday : ℕ
monday = 1

abbrev pub jan : ℕ
jan = 1

-- `(year % 100 && !(year % 4)) || (!(year % 100) && !(year % 400))`
unfoldable pub feb_days : ℕ → ℕ
feb_days year =
    if (not (year % 100 == 0) && (year % 4 == 0)) || ((year % 100 == 0) && (year % 400 == 0))
    then 29
    else 28

abbrev long_month : ℕ → Bool
long_month m = m == 1 || (m == 3 || (m == 5 || (m == 7 || (m == 8 || (m == 10 || m == 12)))))

abbrev short_month : ℕ → Bool
short_month m = m == 4 || (m == 6 || (m == 9 || m == 11))

-- -1 for a number that is no month
unfoldable pub num_days_in_month : ℕ → ℕ → ℤ
unfolding feb_days
num_days_in_month month year =
    if long_month month
    then pos 31
    else (if short_month month
        then pos 30
        else (if month == 2 then pos (feb_days year) else negsuc 0))

-- `(weekday + days) % 7`; the loop below adds no negative number.
abbrev pub add_days : ℕ → ℤ → ℕ
add_days weekday (pos days) = (weekday + days) % 7
add_days weekday (negsuc days) = (weekday - suc days) % 7

-- The variables `weekday` and `nms`.
pub record Count : Type 0 where
  pub weekday : ℕ
  pub nms : ℕ

unfoldable pub next_month : ℕ → ℕ → Count → Count
next_month m yr c =
    let w = add_days c.weekday (num_days_in_month m yr) in
    record { weekday = w; nms = if w == monday then c.nms + 1 else c.nms }

-- `rounds` rounds of the loop over the months, from `m` on.
unfoldable pub months : (rounds m yr : ℕ) → Count → Count
months zero m yr c = c
months (suc n) m yr c = months n (m + 1) yr (next_month m yr c)

-- `rounds` rounds of the loop over the years, from `yr` on.
unfoldable pub years : (rounds yr : ℕ) → Count → Count
years zero yr c = c
years (suc n) yr c = years n (yr + 1) (months 12 jan yr c)

unfoldable pub num_first_mondays : (start_year end_year jan_first_weekday : ℕ) → ℕ
num_first_mondays start_year end_year jan_first_weekday =
    (years (end_year + 1 - start_year) start_year
      (record { weekday = jan_first_weekday; nms = 0 })).nms
