-- ===== src/Calendar/Examples.antt =====
-- Runs of the calendar of ps2/calendar.c.
use cse.Base.{◌+◌, ◌%◌, ◌≡◌, refl}
use cse.Calendar.{num_first_mondays}
use cse.Calendar.Mondays.{new_year, one_if_monday, firsts_of_years, num_first_mondays-shifted}

-- 1 January 1900 was a Monday.
monday_1900 : (new_year 1900 + 6) % 7 ≡ 1
unfolding new_year
monday_1900 = refl

num_first_mondays-shifted_example :
    num_first_mondays 1900 1901 1 + one_if_monday (new_year 1900 + 6)
    ≡ firsts_of_years 2 1900 6 + one_if_monday (new_year 1902 + 6)
num_first_mondays-shifted_example = num_first_mondays-shifted 1900 1901 1 6 monday_1900
