-- ===== src/Clock/Time.antt =====
-- kernel/src/devices/clock/mod.rs: `ClockTime`, seconds and the nanoseconds added to them.
use emerald.Prelude.{
  ℕ, ◌+◌, ◌-◌, ◌*◌, ◌/◌, ◌%◌, ◌<◌, ◌≡◌, Bool, ◌||◌, ◌&&◌, arith, Outcome, ok, panic, undefined,
  ◌>>=◌, ltb, ◌==◌, if◌then◌else◌,
}
use emerald.Clock.Rtc.{checked_minus}

pub record ClockTime : Type 0 where
  pub nanoseconds : ℕ
  pub seconds : ℕ

abbrev pub nanos_per_sec : ℕ
nanos_per_sec = 1000000000

-- Below 2 ^ 34 seconds, no sum or product overflows.
abbrev pub as_nanos : ClockTime → ℕ
as_nanos t = t.seconds * nanos_per_sec + t.nanoseconds

-- `cmp`: whether one time is before another.
unfoldable pub is_before : ClockTime → ClockTime → Bool
is_before a b =
    ltb a.seconds b.seconds || ((a.seconds == b.seconds) && ltb a.nanoseconds b.nanoseconds)

-- `Sub`: an overflow of a subtraction panics.
unfoldable pub sub : ClockTime → ClockTime → Outcome ClockTime
sub a b = do
  nanoseconds ←
      if ltb a.nanoseconds b.nanoseconds
      then checked_minus (a.nanoseconds + nanos_per_sec) b.nanoseconds
      else ok (a.nanoseconds - b.nanoseconds)
  seconds ← checked_minus a.seconds b.seconds
  seconds' ← checked_minus seconds (if ltb a.nanoseconds b.nanoseconds then 1 else 0)
  ok (record { nanoseconds = nanoseconds; seconds = seconds' })

-- `Add`
unfoldable pub add : ClockTime → ClockTime → ClockTime
add a b =
    let nanoseconds = a.nanoseconds + b.nanoseconds in
    record {
      nanoseconds = nanoseconds % nanos_per_sec;
      seconds = a.seconds + b.seconds + nanoseconds / nanos_per_sec;
    }

-- The nanoseconds make less than a second.
abbrev pub IsTime : ClockTime → Type 0
IsTime t = t.nanoseconds < nanos_per_sec

pub add-IsTime : (a b : ClockTime) → IsTime (add a b)
unfolding add
add-IsTime a b = omega arith

-- The sum has the nanoseconds of both.
pub as_nanos-add : (a b : ClockTime) → as_nanos (add a b) ≡ as_nanos a + as_nanos b
unfolding add
as_nanos-add a b = omega arith

-- What `sub` comes to: the difference in nanoseconds, or a panic.
abbrev pub Differs : ClockTime → ClockTime → Outcome ClockTime → Type 0
Differs a b (ok d) = (as_nanos a ≡ as_nanos b + as_nanos d) × IsTime d
Differs a b panic = as_nanos a < as_nanos b
Differs a b undefined = ⊥

-- A difference of times is the difference of their nanoseconds; `sub` panics exactly where the second
-- time is the later one.
pub sub-Differs : (a b : ClockTime) → IsTime a → IsTime b → Differs a b (sub a b)
unfolding sub
sub-Differs a b ha hb = ground (arith, ha, hb)

-- `cmp` compares the nanoseconds of two times.
pub is_before_iff :
    (a b : ClockTime) → IsTime a → IsTime b → is_before a b ≡ ltb (as_nanos a) (as_nanos b)
unfolding is_before
is_before_iff a b ha hb = ground (arith, ha, hb)
