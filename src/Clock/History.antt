-- ===== src/Clock/History.antt =====
-- kernel/src/devices/clock/mod.rs: the time that `SystemTime` counts over any sequence of ticks and
-- changes of the device.
use emerald.Prelude.{
  ℕ, ◌+◌, ◌-◌, ◌≤◌, ◌≡◌, ◌∙◌, inl, inr, refl, sym, ap, none, some, List, [], ◌∷◌, arith, Outcome,
  ok, panic, undefined, ◌>>=◌, Bool, true, false, ◌||◌, ltb, ltb→lt, All, ◌<◌, ◌==◌, if◌then◌else◌,
  Bool-cases,
}
use mathlib.Core.Path.{subst}
use emerald.Clock.Rtc.{RtcTime}
use emerald.Clock.Time.{ClockTime, as_nanos, IsTime, sub, add, Differs, sub-Differs}
use emerald.Clock.System.{
  SystemTime, count_up, count_up-eq, tick, update_device, switch_from, update_device-switch_from,
}

-- A call, with what the devices show at it.
pub data Call : Type 0 where
  ticks : (ℕ → ClockTime) → Call
  switches : (ℕ → ClockTime) → RtcTime → ℕ → Call

unfoldable pub call : Call → SystemTime → Outcome SystemTime
unfolding tick update_device
call (ticks now) s = tick now s
call (switches now rtc device) s = update_device now rtc device s

unfoldable pub run : List Call → SystemTime → Outcome SystemTime
unfolding call
run [] s = ok s
run (c ∷ cs) s = do s' ← call c s; run cs s'

-- The nanoseconds that pass on the device in use, from its last reading on.
abbrev pub elapsed : List Call → ℕ → ClockTime → ℕ
elapsed [] device last = 0
elapsed (ticks now ∷ cs) device last =
    as_nanos (now device) - as_nanos last + elapsed cs device (now device)
elapsed (switches now rtc new_device ∷ cs) device last =
    if new_device == device
    then elapsed cs device last
    else as_nanos (now device) - as_nanos last + elapsed cs new_device (now new_device)

-- Whether the device in use is ever read at a time before its last reading.
abbrev pub goes_back : List Call → ℕ → ClockTime → Bool
goes_back [] device last = false
goes_back (ticks now ∷ cs) device last =
    ltb (as_nanos (now device)) (as_nanos last) || goes_back cs device (now device)
goes_back (switches now rtc new_device ∷ cs) device last =
    if new_device == device
    then goes_back cs device last
    else ltb (as_nanos (now device)) (as_nanos last) || goes_back cs new_device (now new_device)

abbrev pub readings : Call → ℕ → ClockTime
readings (ticks now) = now
readings (switches now rtc new_device) = now

-- All devices always show times of less than a second beside their seconds.
abbrev pub Shows : List Call → Type 0
Shows cs = All (λ c. (device : ℕ) → IsTime (readings c device)) cs

-- A device in use, and the time counted so far.
pub record Counts (device : ℕ) (last : ClockTime) (start : ClockTime) (nanos : ℕ) (s : SystemTime)
    : Type 0 where
  pub in_use : s.device ≡ some device
  pub last_lem : s.last_tick ≡ last
  pub start_lem : s.start_unix ≡ start
  pub counted : as_nanos s.startup_offset ≡ nanos

count_up_lem :
    (device : ℕ) (last start : ClockTime) (nanos : ℕ) (s : SystemTime) (time : ClockTime)
    → Counts device last start nanos s
    → IsTime last
    → IsTime time
    → as_nanos last ≤ as_nanos time
    → (o : ClockTime) × (count_up s time ≡ ok o)
      × (as_nanos o ≡ nanos + (as_nanos time - as_nanos last))
count_up_lem device last start nanos s time c hl ht h =
    let same = ap as_nanos c.last_lem in
    let (o, e, sum) =
      count_up-eq s time ht (subst IsTime (sym c.last_lem) hl) (omega (arith, same, h)) in
    (o, e, omega (arith, sum, same, c.counted, h))

count_up-panics :
    (device : ℕ) (last start : ClockTime) (nanos : ℕ) (s : SystemTime) (time : ClockTime)
    → Counts device last start nanos s
    → IsTime last
    → IsTime time
    → as_nanos time < as_nanos last
    → count_up s time ≡ panic
unfolding count_up
count_up-panics device last start nanos s time c hl ht early =
    go (sub time s.last_tick) (sub-Differs time s.last_tick ht (subst IsTime (sym c.last_lem) hl))
  where
    same : as_nanos s.last_tick ≡ as_nanos last
    same = ap as_nanos c.last_lem

    go :
        (d : Outcome ClockTime)
        → Differs time s.last_tick d
        → (d >>= λ diff. ok (add s.startup_offset diff)) ≡ panic
    go (ok d) (e, _) = absurd (omega (arith, e, same, early))
    go panic late = refl
    go undefined never = absurd never

-- What a sequence of calls comes to: a panic, or so much time since the start, which is as it was.
abbrev pub Elapsed : Bool → ℕ → ClockTime → Outcome SystemTime → Type 0
Elapsed true total start o = o ≡ panic
Elapsed false total start o =
    (s : SystemTime) × (o ≡ ok s) × (as_nanos s.startup_offset ≡ total) × (s.start_unix ≡ start)

-- One reading, and the calls after it.
read-Elapsed :
    (device next : ℕ) (last start : ClockTime) (nanos later : ℕ) (s : SystemTime)
    (time shown : ClockTime) (back : Bool) (rest : SystemTime → Outcome SystemTime)
    → Counts device last start nanos s
    → IsTime last
    → IsTime time
    → ((o : ClockTime)
        → as_nanos o ≡ nanos + (as_nanos time - as_nanos last)
        → Elapsed back
            (as_nanos o + later)
            start
            (rest (record s { startup_offset = o; device = some next; last_tick = shown })))
    → Elapsed
        (ltb (as_nanos time) (as_nanos last) || back)
        (nanos + (as_nanos time - as_nanos last + later))
        start
        (count_up s time >>= λ o.
          rest (record s { startup_offset = o; device = some next; last_tick = shown }))
read-Elapsed device next last start nanos later s time shown back rest c hl ht h =
    elim (Bool-cases (ltb (as_nanos time) (as_nanos last))) [
      | inl early ↦
          rw
            (
              early,
              count_up-panics device last start nanos s time c hl ht
                  (ltb→lt (as_nanos time) (as_nanos last) early),
            )
            refl
      | inr on ↦
          let (o, e, sum) =
            count_up_lem device last start nanos s time c hl ht (ground (arith, on)) in
          let total : as_nanos o + later ≡ nanos + (as_nanos time - as_nanos last + later) =
            omega (arith, sum) in
          rw (on, e)
            (subst
              (λ n.
                Elapsed back n start
                  (rest (record s { startup_offset = o; device = some next; last_tick = shown })))
              total (h o sum))
    ]

then_ok :
    {A B C : Type 0} (o : Outcome A) (f : A → B) (g : B → Outcome C)
    → ((o >>= λ a. ok (f a)) >>= g) ≡ (o >>= λ a. g (f a))
then_ok (ok a) f g = refl
then_ok panic f g = refl
then_ok undefined f g = refl

tick-count_up :
    (now : ℕ → ClockTime) (device : ℕ) (s : SystemTime)
    → s.device ≡ some device
    → tick now s ≡ (
        count_up s (now device) >>= λ o.
        ok (record s { startup_offset = o; device = some device; last_tick = now device }))
unfolding tick
tick-count_up now device s e i = elim (e i) [
  | none ↦ ok s
  | some d ↦
      (count_up s (now d) >>= λ o.
      ok (record s { startup_offset = o; device = e i; last_tick = now d }))
]

switch_from-count_up :
    (now : ℕ → ClockTime) (new_device device : ℕ) (s : SystemTime)
    → (new_device == device) ≡ false
    → switch_from now new_device s device ≡ (
        count_up s (now device) >>= λ o.
        ok (record s { startup_offset = o; device = some new_device; last_tick = now new_device }))
unfolding switch_from
switch_from-count_up now new_device device s other = rw other refl

-- After the first device was added, where all readings are normalised times, any sequence of ticks and
-- changes of the device panics exactly where the device in use is read at a time before its last
-- reading. Else it succeeds, and has added to the time since the start exactly the time that passed on
-- the devices, each from its first reading in use to its last; the time of the start is as it was.
pub run-elapsed :
    (cs : List Call) (device : ℕ) (last start : ClockTime) (nanos : ℕ) (s : SystemTime)
    → Counts device last start nanos s
    → IsTime last
    → Shows cs
    → Elapsed (goes_back cs device last) (nanos + elapsed cs device last) start (run cs s)
unfolding run switch_from
run-elapsed [] device last start nanos s c hl h = (s, refl, omega (arith, c.counted), c.start_lem)
run-elapsed (ticks now ∷ cs) device last start nanos s c hl h =
    let back = goes_back cs device (now device) in
    let later = elapsed cs device (now device) in
    subst (Elapsed (goes_back (ticks now ∷ cs) device last) _ start)
      (sym (
        ap (λ o. o >>= run cs) (tick-count_up now device s c.in_use)
        ∙ then_ok (count_up s (now device)) _ (run cs)))
      (read-Elapsed device device last start nanos later s (now device) (now device) back (run cs) c
        hl (h.0 device)
        (λ o sum.
          run-elapsed cs device (now device) start (as_nanos o) _
            (record { in_use = refl; last_lem = refl; start_lem = c.start_lem; counted = refl })
            (h.0 device) h.1))
run-elapsed (switches now rtc new_device ∷ cs) device last start nanos s c hl h =
    elim (Bool-cases (new_device == device)) [
      | inl same ↦
          rw (same, update_device-switch_from now rtc new_device s device c.in_use)
            (rw (switch_from, same) (run-elapsed cs device last start nanos s c hl h.1))
      | inr other ↦
          let back = goes_back cs new_device (now new_device) in
          let later = elapsed cs new_device (now new_device) in
          rw other (
            subst (Elapsed (ltb (as_nanos (now device)) (as_nanos last) || back) _ start)
              (sym (
                ap (λ o. o >>= run cs)
                  (update_device-switch_from now rtc new_device s device c.in_use
                    ∙ switch_from-count_up now new_device device s other)
                ∙ then_ok (count_up s (now device)) _ (run cs)))
              (read-Elapsed device new_device last start nanos later s (now device) (now new_device)
                back (run cs) c hl (h.0 device)
                (λ o sum.
                  run-elapsed cs new_device (now new_device) start (as_nanos o) _
                    (record {
                      in_use = refl;
                      last_lem = refl;
                      start_lem = c.start_lem;
                      counted = refl;
                    })
                    (h.0 new_device) h.1)))
    ]
