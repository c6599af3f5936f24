-- ===== src/Clock/Rtc.antt =====
-- kernel/src/devices/clock/rtc.rs: `RtcTime`, and how `Rtc::get_time` decodes the registers.
use emerald.Prelude.{
  ℕ, ◌+◌, ◌-◌, ◌*◌, ◌/◌, ◌%◌, Bool, ◌&&◌, ◌||◌, not, Option, none, some, List, [], ◌∷◌, Outcome, ok,
  panic, ◌>>=◌, get_elem?, ltb, leb, ◌==◌, if◌then◌else◌,
}

pub record RtcTime : Type 0 where
  pub seconds : ℕ
  pub minutes : ℕ
  pub hours : ℕ
  pub day_of_month : ℕ
  pub month : ℕ
  pub year : ℕ

abbrev pub seconds_per_minute : ℕ
seconds_per_minute = 60

abbrev pub seconds_per_hour : ℕ
seconds_per_hour = 60 * seconds_per_minute

abbrev pub seconds_per_day : ℕ
seconds_per_day = 24 * seconds_per_hour

abbrev pub days_per_month_array : List ℕ
days_per_month_array = 0 ∷ 31 ∷ 59 ∷ 90 ∷ 120 ∷ 151 ∷ 181 ∷ 212 ∷ 243 ∷ 273 ∷ 304 ∷ 334 ∷ []

abbrev pub unix_epoch_in_seconds : ℕ
unix_epoch_in_seconds = 62135596800

-- A subtraction that overflows panics.
abbrev pub checked_minus : ℕ → ℕ → Outcome ℕ
checked_minus a b = if leb b a then ok (a - b) else panic

abbrev pub index : List ℕ → ℕ → Outcome ℕ
index xs i = elim (get_elem? xs i) [ none ↦ panic | some x ↦ ok x ]

-- Whether the leap day of the year has passed.
abbrev pub is_year_leap : RtcTime → Bool
is_year_leap t =
    ltb 2 t.month && ((t.year % 4 == 0) && (not (t.year % 100 == 0) || (t.year % 400 == 0)))

unfoldable pub days_in_last_years : ℕ → ℕ
days_in_last_years last_year = last_year * 365 + last_year / 4 - last_year / 100 + last_year / 400

-- A year has 16 bits, so no sum or product overflows 64.
unfoldable pub seconds_since_unix_epoch : RtcTime → Outcome (Option ℕ)
seconds_since_unix_epoch t = if ltb t.year 1970 then ok none else do
  month_index ← checked_minus t.month 1
  days_of_months ← index days_per_month_array month_index
  this_year_days ← checked_minus (days_of_months + t.day_of_month) (if is_year_leap t then 0 else 1)
  let total_days = days_in_last_years (t.year - 1) + this_year_days
  since_unix ←
      checked_minus
        (total_days * seconds_per_day
          + t.hours * seconds_per_hour
          + t.minutes * seconds_per_minute
          + t.seconds)
        unix_epoch_in_seconds
  ok (some since_unix)

-- `(x & 0x0F) + ((x / 16) * 10)`
abbrev pub from_bcd : ℕ → ℕ
from_bcd x = x % 16 + x / 16 * 10

-- The same for the hours, whose top bit says that it is after noon on a clock of 12 hours.
abbrev pub hours_from_bcd : ℕ → ℕ
hours_from_bcd x = x % 16 + x % 128 / 16 * 10 + x / 128 * 128

-- Rtc::get_time after `get_time_sync`: the registers as read twice in a row, the century among them
-- where there is a register for it, and whether they are in binary coded decimal.
unfoldable pub decode : Bool → RtcTime → Option ℕ → RtcTime
decode is_bcd t century =
    let convert : ℕ → ℕ = λ x. if is_bcd then from_bcd x else x in
    let hours = if is_bcd then hours_from_bcd t.hours else t.hours in
    record {
      seconds = convert t.seconds;
      minutes = convert t.minutes;
      hours = if leb 128 hours then (hours % 128 + 12) % 24 else hours;
      day_of_month = convert t.day_of_month;
      month = convert t.month;
      year = convert t.year + elim century [ none ↦ 20 | some c ↦ convert c ] * 100;
    }

-- `Rtc::new`: a register 0 of the firmware's table says that there is none for the century.
pub century_register : Option ℕ → Option ℕ
century_register none = none
century_register (some reg) = if reg == 0 then none else some reg
