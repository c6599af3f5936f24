-- ===== src/Clock/System.antt =====
-- kernel/src/devices/clock/mod.rs: `SystemTime`, and the devices of `Clock`. A device is a number, and
-- `now` is what each device shows at a call.
use emerald.Prelude.{
  ℕ, ◌+◌, ◌≤◌, ◌≡◌, refl, ap, Option, none, some, arith, Outcome, ok, panic, undefined, ◌>>=◌, ◌==◌,
  if◌then◌else◌,
}
use emerald.Clock.Rtc.{RtcTime, seconds_since_unix_epoch}
use emerald.Clock.Time.{ClockTime, as_nanos, sub, add, IsTime, as_nanos-add, Differs, sub-Differs}

pub record SystemTime : Type 0 where
  pub start_unix : ClockTime
  pub last_tick : ClockTime
  pub startup_offset : ClockTime
  pub device : Option ℕ

abbrev pub start_of_time : ClockTime
start_of_time = record { nanoseconds = 0; seconds = 0 }

-- `.expect("Must be after 1970")`, and a time of whole seconds.
abbrev pub unix_time : RtcTime → Outcome ClockTime
unix_time t = seconds_since_unix_epoch t >>= λ s. elim s [
  | none ↦ panic
  | some seconds ↦ ok (record { nanoseconds = 0; seconds = seconds })
]

unfoldable pub new : RtcTime → Outcome SystemTime
new rtc = do
  start ← unix_time rtc
  ok (record {
    start_unix = start;
    last_tick = start_of_time;
    startup_offset = start_of_time;
    device = none;
  })

-- What `tick` does with a device, and `update_device` with the one it replaces.
unfoldable pub count_up : SystemTime → ClockTime → Outcome ClockTime
count_up s time = do diff ← sub time s.last_tick; ok (add s.startup_offset diff)

unfoldable pub tick : (ℕ → ClockTime) → SystemTime → Outcome SystemTime
unfolding count_up
tick now s = elim (s.device) [
  | none ↦ ok s
  | some device ↦ (do
    offset ← count_up s (now device)
    ok (record s { startup_offset = offset; last_tick = now device }))
]

-- `update_device` where a device is in use.
unfoldable pub switch_from : (ℕ → ClockTime) → ℕ → SystemTime → ℕ → Outcome SystemTime
unfolding count_up
switch_from now device s current = if device == current then ok s else do
  offset ← count_up s (now current)
  ok (record s { startup_offset = offset; device = some device; last_tick = now device })

-- `rtc` is the first time that the clock of the machine shows in a new second; it is read only for the
-- first device.
unfoldable pub update_device : (ℕ → ClockTime) → RtcTime → ℕ → SystemTime → Outcome SystemTime
unfolding switch_from
update_device now rtc device s = elim (s.device) [
  | some current ↦ switch_from now device s current
  | none ↦ (do
    start ← unix_time rtc
    ok (record {
      start_unix = start;
      last_tick = now device;
      startup_offset = start_of_time;
      device = some device;
    }))
]

pub update_device-switch_from :
    (now : ℕ → ClockTime) (rtc : RtcTime) (device : ℕ) (s : SystemTime) (current : ℕ)
    → s.device ≡ some current
    → update_device now rtc device s ≡ switch_from now device s current
unfolding update_device
update_device-switch_from now rtc device s current e =
    ap
      (λ o. elim o [
        | some c ↦ switch_from now device s c
        | none ↦
            (unix_time rtc >>= λ start. ok (record {
              start_unix = start;
              last_tick = now device;
              startup_offset = start_of_time;
              device = some device;
            }))
      ])
      e

-- `Clock::time_since_startup` and `Clock::time_since_unix_epoch`, which tick first.
unfoldable pub time_since_startup : (ℕ → ClockTime) → SystemTime → Outcome (ClockTime × SystemTime)
time_since_startup now s = do s' ← tick now s; ok (s'.startup_offset, s')

unfoldable pub time_since_unix_epoch :
    (ℕ → ClockTime) → SystemTime → Outcome (ClockTime × SystemTime)
time_since_unix_epoch now s = do s' ← tick now s; ok (add s'.start_unix s'.startup_offset, s')

-- The devices show times, and the one in use shows none before its last tick.
pub record IsAhead (now : ℕ → ClockTime) (s : SystemTime) : Type 0 where
  pub shown : (device : ℕ) → IsTime (now device)
  pub last : IsTime s.last_tick
  pub ahead : (device : ℕ) → s.device ≡ some device → as_nanos s.last_tick ≤ as_nanos (now device)

pub count_up-eq :
    (s : SystemTime) (time : ClockTime)
    → IsTime time
    → IsTime s.last_tick
    → as_nanos s.last_tick ≤ as_nanos time
    → (o : ClockTime) × (count_up s time ≡ ok o)
      × (as_nanos o + as_nanos s.last_tick ≡ as_nanos s.startup_offset + as_nanos time)
unfolding count_up
count_up-eq s time ht hl h = go (sub time s.last_tick) (sub-Differs time s.last_tick ht hl)
  where
    go :
        (d : Outcome ClockTime)
        → Differs time s.last_tick d
        → (o : ClockTime) × ((d >>= λ diff. ok (add s.startup_offset diff)) ≡ ok o)
          × (as_nanos o + as_nanos s.last_tick ≡ as_nanos s.startup_offset + as_nanos time)
    go (ok d) (e, _) =
        (add s.startup_offset d, refl, omega (arith, e, as_nanos-add s.startup_offset d))
    go panic late = absurd (omega (arith, late, h))
    go undefined never = absurd never
