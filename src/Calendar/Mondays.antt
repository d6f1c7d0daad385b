-- ===== src/Calendar/Mondays.antt =====
-- numFirstMondays of ps2/calendar.c against the lengths of the months and the leap years of the calendar.
use cse.Base.{
  ℕ, zero, suc, ◌+◌, ◌-◌, ◌*◌, ◌/◌, ◌%◌, ◌≡◌, refl, sym, ap, subst, Bool, List, [], ◌∷◌, length,
  arith, ◌==◌, ◌||◌, ◌&&◌, not, if◌then◌else◌,
}
use cse.Base.Int.{pos}
use cse.Calendar.{
  monday, jan, num_days_in_month, Count, next_month, months, years, num_first_mondays,
}

abbrev pub is_leap : ℕ → Bool
is_leap year = (year % 400 == 0) || ((year % 4 == 0) && not (year % 100 == 0))

-- January to December
abbrev pub month_lengths : ℕ → List ℕ
month_lengths year =
    31 ∷ (if is_leap year then 29 else 28) ∷ 31 ∷ 30 ∷ 31 ∷ 30 ∷ 31 ∷ 31 ∷ 30 ∷ 31 ∷ 30 ∷ 31 ∷ []

-- The days from 1 January of the year 0 to 1 January: 365 for each year, and one more for each leap year.
unfoldable pub new_year : ℕ → ℕ
new_year year = 365 * year + (year + 3) / 4 - (year + 99) / 100 + (year + 399) / 400

abbrev pub one_if_monday : ℕ → ℕ
one_if_monday day = if day % 7 == monday then 1 else 0

-- The Mondays among the first days of months of these lengths, the first of which starts on `day`.
unfoldable pub firsts : (day : ℕ) → List ℕ → ℕ
firsts day [] = 0
firsts day (l ∷ lengths) = one_if_monday day + firsts (day + l) lengths

-- The same for `n` years from `year` on, where a day is counted from 1 January of the year 0 and
-- `shift` is added to it.
unfoldable pub firsts_of_years : (n year shift : ℕ) → ℕ
firsts_of_years zero year shift = 0
firsts_of_years (suc n) year shift =
    firsts (new_year year + shift) (month_lengths year) + firsts_of_years n (year + 1) shift

sum : List ℕ → ℕ
sum [] = 0
sum (l ∷ lengths) = l + sum lengths

-- The months from `m` on have these lengths.
Lengths : (m year : ℕ) → List ℕ → Type 0
Lengths m year [] = Unit
Lengths m year (l ∷ lengths) = (num_days_in_month m year ≡ pos l) × Lengths (m + 1) year lengths

year-Lengths : (year : ℕ) → Lengths jan year (month_lengths year)
unfolding Lengths num_days_in_month
year-Lengths year = ground arith

next_year : (year : ℕ) → new_year (year + 1) ≡ new_year year + sum (month_lengths year)
unfolding new_year sum
next_year year = ground arith

-- The count so far, with the Monday that the loop has not seen yet.
record Behind (k day seen : ℕ) (c : Count) : Type 0 where
  weekday : c.weekday ≡ day % 7
  count : c.nms + k ≡ seen + one_if_monday day

same-Behind :
    (k : ℕ) (c : Count) {day day' seen seen' : ℕ}
    → day ≡ day'
    → seen ≡ seen'
    → Behind k day seen c
    → Behind k day' seen' c
same-Behind k c {day} {day'} {seen} {seen'} d s b =
    subst (λ n. Behind k day' n c) s (subst (λ n. Behind k n seen c) d b)

next_month-Behind :
    (m year l k day seen : ℕ) (c : Count)
    → num_days_in_month m year ≡ pos l
    → Behind k day seen c
    → Behind k (day + l) (seen + one_if_monday day) (next_month m year c)
unfolding next_month
next_month-Behind m year l k day seen c e b = ground (arith, e)

months-Behind :
    (lengths : List ℕ) (m year k day seen : ℕ) (c : Count)
    → Lengths m year lengths
    → Behind k day seen c
    → Behind k (day + sum lengths) (seen + firsts day lengths) (months (length lengths) m year c)
unfolding months firsts sum Lengths
months-Behind [] m year k day seen c e b = same-Behind k c (omega arith) (omega arith) b
months-Behind (l ∷ lengths) m year k day seen c e b = same-Behind k _ (omega arith) (omega arith) (
    months-Behind lengths (m + 1) year k (day + l) (seen + one_if_monday day) (next_month m year c)
      e.1 (next_month-Behind m year l k day seen c e.0 b))

years-Behind :
    (n year shift k seen : ℕ) (c : Count)
    → Behind k (new_year year + shift) seen c
    → Behind k (new_year (year + n) + shift) (seen + firsts_of_years n year shift) (years n year c)
unfolding years firsts_of_years
years-Behind zero year shift k seen c b =
    let same : year ≡ year + 0 = omega arith in
    same-Behind k c (ap (λ y. new_year y + shift) same) (omega arith) b
years-Behind (suc n) year shift k seen c b =
    let day = new_year year + shift in
    let lengths = month_lengths year in
    let later : year + 1 + n ≡ year + suc n = omega arith in
    same-Behind k _ (ap (λ y. new_year y + shift) later) (omega arith) (
      years-Behind n (year + 1) shift k (seen + firsts day lengths) (months 12 jan year c) (
        same-Behind k _ (omega (arith, next_year year)) refl
          (months-Behind lengths jan year k day seen c (year-Lengths year) b)))

-- numFirstMondays leaves out the first of January of `start_year` and counts the one of the year after
-- `end_year`: where days are counted from 1 January of the year 0 and `shift` added to them, so that 1 January
-- of `start_year` has the given weekday, the result with the first of those two put back if it is a
-- Monday, and the last one taken off if it is, is the number of Mondays on the first of a month from
-- January of `start_year` to December of `end_year`, by the lengths of the months and the leap years of
-- the calendar.
pub num_first_mondays-shifted :
    (start_year end_year jan_first_weekday shift : ℕ)
    → (new_year start_year + shift) % 7 ≡ jan_first_weekday
    → let n = end_year + 1 - start_year in
      num_first_mondays start_year end_year jan_first_weekday
        + one_if_monday (new_year start_year + shift)
      ≡ firsts_of_years n start_year shift + one_if_monday (new_year (start_year + n) + shift)
unfolding num_first_mondays
num_first_mondays-shifted start_year end_year w shift e =
    let n = end_year + 1 - start_year in
    let r =
      years-Behind n start_year shift (one_if_monday (new_year start_year + shift)) 0
        (record { weekday = w; nms = 0 }) (record { weekday = sym e; count = refl }) in
    omega (arith, r.count)
