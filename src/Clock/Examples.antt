-- ===== src/Clock/Examples.antt =====
-- Runs of kernel/src/devices/clock, and the theorems at them.
use emerald.Prelude.{
  ℕ, ◌+◌, ◌*◌, ◌≡◌, refl, true, none, some, List, [], ◌∷◌, arith, ok, if◌then◌else◌, ◌==◌,
}
use emerald.Clock.Rtc.{RtcTime, seconds_since_unix_epoch, days_in_last_years, decode}
use emerald.Clock.Calendar.{is_leap, days_of_years, days_of_months, seconds_since_unix_epoch-eq}
use emerald.Clock.Time.{ClockTime, sub}
use emerald.Clock.System.{SystemTime}
use emerald.Clock.History.{Call, ticks, switches, run, elapsed, goes_back, Elapsed, run-elapsed}

abbrev leap_day : RtcTime
leap_day = record {
  seconds = 45;
  minutes = 33;
  hours = 9;
  day_of_month = 29;
  month = 2;
  year = 2404;
}

leap_day-seconds : seconds_since_unix_epoch leap_day ≡ ok (some 13700828025)
unfolding seconds_since_unix_epoch days_in_last_years
leap_day-seconds = refl

before_1970 : seconds_since_unix_epoch (record leap_day { year = 1969 }) ≡ ok none
unfolding seconds_since_unix_epoch
before_1970 = refl

-- A clock of 12 hours shows noon as 12 with the bit for the afternoon, which is decoded as midnight.
noon :
    decode true
      (record {
        seconds = 0;
        minutes = 0;
        hours = 128 + 18;
        day_of_month = 1;
        month = 1;
        year = 36;
      })
      none
    ≡ record { seconds = 0; minutes = 0; hours = 0; day_of_month = 1; month = 1; year = 2024 }
unfolding decode
noon = refl

seconds_since_unix_epoch-eq_example :
    seconds_since_unix_epoch leap_day
    ≡ ok (
        some (
          (days_of_years 434 + days_of_months (is_leap 2404) 1 + 28) * 86400
          + 9 * 3600
          + 33 * 60
          + 45))
seconds_since_unix_epoch-eq_example = seconds_since_unix_epoch-eq leap_day (record {
  from_1970 = omega arith;
  month_pos = omega arith;
  month_le = omega arith;
  day_pos = omega arith;
})

abbrev early : ClockTime
early = record { nanoseconds = 900000000; seconds = 3 }

abbrev late : ClockTime
late = record { nanoseconds = 100000000; seconds = 5 }

abbrev later : ClockTime
later = record { nanoseconds = 400000000; seconds = 5 }

sub-late : sub late early ≡ ok (record { nanoseconds = 200000000; seconds = 1 })
unfolding sub
sub-late = refl

-- Device 0 shows `late`, and device 1 `early`.
abbrev shows : ℕ → ClockTime
shows device = if device == 0 then late else early

abbrev shows_later : ℕ → ClockTime
shows_later device = if device == 0 then late else later

abbrev started : SystemTime
started = record {
  start_unix = record { nanoseconds = 0; seconds = 1000 };
  last_tick = early;
  startup_offset = record { nanoseconds = 0; seconds = 7 };
  device = some 0;
}

-- 1.2 seconds on device 0, then 1.5 seconds on device 1.
abbrev calls : List Call
calls =
    ticks shows
    ∷ switches shows leap_day 1
    ∷ switches shows_later leap_day 1
    ∷ ticks shows_later
    ∷ []

calls-elapsed : elapsed calls 0 early ≡ 2700000000
calls-elapsed = refl

-- Device 0 shows an earlier time than before.
calls-goes_back : goes_back (ticks shows ∷ ticks (λ device. early) ∷ []) 0 early ≡ true
calls-goes_back = refl

run-elapsed_example :
    Elapsed
      (goes_back calls 0 early)
      (7000000000 + elapsed calls 0 early)
      (record { nanoseconds = 0; seconds = 1000 })
      (run calls started)
run-elapsed_example =
    run-elapsed calls 0 early (record { nanoseconds = 0; seconds = 1000 }) 7000000000 started
      (record { in_use = refl; last_lem = refl; start_lem = refl; counted = refl }) (omega arith)
      (ground arith)
