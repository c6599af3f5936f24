-- ===== src/Clock/Calendar.antt =====
-- kernel/src/devices/clock/rtc.rs: the seconds since 1970, counted by the calendar.
use emerald.Prelude.{
  ℕ, zero, suc, ◌+◌, ◌-◌, ◌*◌, ◌/◌, ◌%◌, ◌≤◌, ◌<◌, ◌≡◌, refl, sym, ap, ◌∙◌, Bool, true, false, ◌&&◌,
  ◌||◌, not, Option, none, some, List, [], ◌∷◌, arith, Outcome, ok, panic, ◌>>=◌, ltb, ◌==◌,
  if◌then◌else◌, get_elem?, take, length,
}
use emerald.Clock.Rtc.{
  RtcTime, seconds_per_day, seconds_per_hour, seconds_per_minute, days_per_month_array,
  unix_epoch_in_seconds, checked_minus, index, is_year_leap, days_in_last_years,
  seconds_since_unix_epoch,
}

-- The Gregorian calendar.
abbrev pub is_leap : ℕ → Bool
is_leap year = (year % 4 == 0) && (not (year % 100 == 0) || (year % 400 == 0))

abbrev pub year_days : ℕ → ℕ
year_days year = if is_leap year then 366 else 365

abbrev pub month_lengths : Bool → List ℕ
month_lengths leap =
    31 ∷ (if leap then 29 else 28) ∷ 31 ∷ 30 ∷ 31 ∷ 30 ∷ 31 ∷ 31 ∷ 30 ∷ 31 ∷ 30 ∷ 31 ∷ []

abbrev pub total : List ℕ → ℕ
total [] = 0
total (x ∷ xs) = x + total xs

-- The days of the first years from 1970 on, and of the first months of a year.
abbrev pub days_of_years : ℕ → ℕ
days_of_years zero = 0
days_of_years (suc n) = days_of_years n + year_days (1970 + n)

abbrev pub days_of_months : Bool → ℕ → ℕ
days_of_months leap n = total (take n (month_lengths leap))

-- A date of the calendar, from 1970 on.
pub record IsDate (t : RtcTime) : Type 0 where
  pub from_1970 : 1970 ≤ t.year
  pub month_pos : 1 ≤ t.month
  pub month_le : t.month ≤ 12
  pub day_pos : 1 ≤ t.day_of_month

div-step4 : (m : ℕ) → (m + 1) / 4 ≡ m / 4 + (if (m + 1) % 4 == 0 then 1 else 0)
div-step4 m = ground arith

div-step100 : (m : ℕ) → (m + 1) / 100 ≡ m / 100 + (if (m + 1) % 100 == 0 then 1 else 0)
div-step100 m = ground arith

div-step400 : (m : ℕ) → (m + 1) / 400 ≡ m / 400 + (if (m + 1) % 400 == 0 then 1 else 0)
div-step400 m = ground arith

leap-sum :
    (y : ℕ)
    → year_days y + (if y % 100 == 0 then 1 else 0)
      ≡ 365 + (if y % 4 == 0 then 1 else 0) + (if y % 400 == 0 then 1 else 0)
leap-sum y = ground arith

last_years-step : (m : ℕ) → days_in_last_years m + year_days (m + 1) ≡ days_in_last_years (m + 1)
unfolding days_in_last_years
last_years-step m = omega (arith, div-step4 m, div-step100 m, div-step400 m, leap-sum (m + 1))

days_of_years-eq : (n : ℕ) → days_in_last_years (1969 + n) ≡ 719162 + days_of_years n
unfolding days_in_last_years
days_of_years-eq zero = refl
days_of_years-eq (suc n) =
    let next : 1969 + n + 1 ≡ 1970 + n = omega arith in
    let here : 1969 + suc n ≡ 1969 + n + 1 = omega arith in
    ap days_in_last_years here
    ∙ sym (last_years-step (1969 + n))
    ∙ ap (λ y. days_in_last_years (1969 + n) + year_days y) next
    ∙ omega (arith, days_of_years-eq n)

-- The entries of the table are the sums of the lengths before them.
abbrev sums : ℕ → List ℕ → List ℕ
sums acc [] = []
sums acc (x ∷ xs) = acc ∷ sums (acc + x) xs

get_elem?-sums :
    (acc : ℕ) (xs : List ℕ) (i : ℕ)
    → i < length xs
    → get_elem? (sums acc xs) i ≡ some (acc + total (take i xs))
get_elem?-sums acc [] i h = absurd (omega (arith, h))
get_elem?-sums acc (x ∷ xs) zero h = ap some (omega arith)
get_elem?-sums acc (x ∷ xs) (suc i) h =
    get_elem?-sums (acc + x) xs i (omega (arith, h)) ∙ ap some (omega arith)

table-eq : (i : ℕ) → i < 12 → get_elem? days_per_month_array i ≡ some (days_of_months false i)
table-eq i h = get_elem?-sums 0 (month_lengths false) i h ∙ ap some (omega arith)

leap_months : (i : ℕ) → days_of_months true i ≡ days_of_months false i + (if ltb 1 i then 1 else 0)
leap_months zero = refl
leap_months (suc zero) = refl
leap_months (suc (suc i)) = ground arith

-- The table has no leap day, and the code takes off the one that it has added where it has not passed.
months-eq :
    (leap : Bool) (m : ℕ)
    → 1 ≤ m
    → days_of_months false (m - 1) + 1
      ≡ days_of_months leap (m - 1) + (if ltb 2 m && leap then 0 else 1)
months-eq false m h = ground arith
months-eq true m h = ground (arith, leap_months (m - 1))

leap_le : (passed : Bool) (day : ℕ) → 1 ≤ day → (if passed then 0 else 1) ≤ day
leap_le passed day h = ground (arith, h)

-- The steps of the code, one by one.
steps-eq :
    (t : RtcTime) (month_index of_months this_year out : ℕ)
    → ltb t.year 1970 ≡ false
    → checked_minus t.month 1 ≡ ok month_index
    → index days_per_month_array month_index ≡ ok of_months
    → checked_minus (of_months + t.day_of_month) (if is_year_leap t then 0 else 1) ≡ ok this_year
    → checked_minus
        ((days_in_last_years (t.year - 1) + this_year) * seconds_per_day
          + t.hours * seconds_per_hour
          + t.minutes * seconds_per_minute
          + t.seconds)
        unix_epoch_in_seconds
      ≡ ok out
    → seconds_since_unix_epoch t ≡ ok (some out)
unfolding seconds_since_unix_epoch
steps-eq t month_index of_months this_year out h₀ h₁ h₂ h₃ h₄ = rw h₀ (
    ap (λ o. o >>= λ i. index days_per_month_array i >>= rest) h₁
    ∙ ap (λ o. o >>= rest) h₂
    ∙ ap (λ o. o >>= last) h₃
    ∙ ap (λ o. o >>= λ s. ok (some s)) h₄)
  where
    last : ℕ → Outcome (Option ℕ)
    last this_year_days =
        checked_minus
          ((days_in_last_years (t.year - 1) + this_year_days) * seconds_per_day
            + t.hours * seconds_per_hour
            + t.minutes * seconds_per_minute
            + t.seconds)
          unix_epoch_in_seconds
        >>= λ s. ok (some s)

    rest : ℕ → Outcome (Option ℕ)
    rest d = checked_minus (d + t.day_of_month) (if is_year_leap t then 0 else 1) >>= last

checked_minus-eq : (a b : ℕ) → b ≤ a → checked_minus a b ≡ ok (a - b)
checked_minus-eq a b h = ground (arith, h)

-- For every date from 1970 on, the result is the number of seconds that the calendar counts: the
-- lengths of the years since 1970, of the months before in this year, and of the days before.
pub seconds_since_unix_epoch-eq :
    (t : RtcTime)
    → IsDate t
    → seconds_since_unix_epoch t
      ≡ ok (
          some (
            (days_of_years (t.year - 1970)
                + days_of_months (is_leap t.year) (t.month - 1)
                + (t.day_of_month - 1))
              * 86400
            + t.hours * 3600
            + t.minutes * 60
            + t.seconds))
unfolding seconds_since_unix_epoch
seconds_since_unix_epoch-eq t d =
    let years : days_in_last_years (t.year - 1) ≡ 719162 + days_of_years (t.year - 1970) =
      ap days_in_last_years (omega (arith, d.from_1970)) ∙ days_of_years-eq (t.year - 1970) in
    let months : days_of_months false (t.month - 1) + 1
        ≡ days_of_months (is_leap t.year) (t.month - 1) + (if is_year_leap t then 0 else 1) =
      months-eq (is_leap t.year) t.month d.month_pos in
    let taken = leap_le (is_year_leap t) t.day_of_month d.day_pos in
    steps-eq t (t.month - 1) (days_of_months false (t.month - 1)) _ _ (ground (arith, d.from_1970))
      (checked_minus-eq t.month 1 d.month_pos)
      (ap (λ o. elim o [ none ↦ panic | some x ↦ ok x ])
        (table-eq (t.month - 1) (omega (arith, d.month_pos, d.month_le))))
      (checked_minus-eq _ _ (omega (arith, taken)))
      (checked_minus-eq _ _ (omega (arith, taken, years)))
    ∙ ap (λ n. ok (some n)) (omega (arith, years, months, taken, d.day_pos, d.month_pos))
