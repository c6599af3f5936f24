-- ===== src/Clock/Devices.antt =====
-- kernel/src/devices/clock/mod.rs: the devices of `Clock`, with the one that the system time uses. An
-- `i64` is its pattern of 64 bits.
use emerald.Prelude.{
  ℕ, ◌+◌, ◌-◌, ◌%◌, ◌<◌, ◌≤◌, ◌≡◌, ◌⊎◌, ◌↔◌, inl, inr, refl, sym, ap, ◌∙◌, Bool, true, false, not,
  Option, none, some, List, [], ◌∷◌, ◌++◌, arith, Outcome, ok, panic, undefined, ◌==◌, ==_iff,
  ◌>>=◌, if◌then◌else◌, Bool-cases,
}
use mathlib.Core.Path.{subst}
use emerald.Prelude.Words.{u64_mod}
use emerald.Clock.Rtc.{RtcTime}
use emerald.Clock.Time.{ClockTime}
use emerald.Clock.System.{
  SystemTime, update_device, update_device-switch_from, switch_from, count_up, count_up-eq, IsAhead,
  unix_time, start_of_time,
}

pub record Clock : Type 0 where
  pub devices : List ℕ
  pub system_time : SystemTime

abbrev pub i64_half : ℕ
i64_half = 0x8000_0000_0000_0000

-- Where an `i64` stands among all of them, from the least on.
abbrev pub i64_rank : ℕ → ℕ
i64_rank key = (key + i64_half) % u64_mod

-- The key `-(device.rating() as i64)`; the negative wraps in a release build.
unfoldable pub sort_key : (ℕ → ℕ) → ℕ → ℕ
sort_key rating device = (u64_mod - rating device % u64_mod) % u64_mod

-- `sort_unstable_by_key` of the standard library is an argument, which takes the key and the list;
-- `devs[0]` panics on an empty list.
unfoldable pub add_device :
    ((ℕ → ℕ) → List ℕ → List ℕ) → (ℕ → ℕ) → (ℕ → ClockTime) → RtcTime → ℕ → Clock → Outcome Clock
unfolding sort_key
add_device sort_unstable_by_key rating now rtc device clock =
    elim (sort_unstable_by_key (sort_key rating) (clock.devices ++ device ∷ [])) [
      | [] ↦ panic
      | best ∷ others ↦
          (update_device now rtc best clock.system_time >>= λ s.
          ok (record { devices = best ∷ others; system_time = s }))
    ]

unfoldable pub get_best_clock : Clock → Option ℕ
get_best_clock clock = elim (clock.devices) [ [] ↦ none | best ∷ others ↦ some best ]

-- `require_calibration` of the devices.
unfoldable pub find_steady : (ℕ → Bool) → List ℕ → Option ℕ
find_steady require_calibration [] = none
find_steady require_calibration (device ∷ others) =
    let rest = find_steady require_calibration others in
    if not (require_calibration device) then some device else rest

unfoldable pub get_best_for_calibration : (ℕ → Bool) → Clock → Option ℕ
unfolding find_steady
get_best_for_calibration require_calibration clock = find_steady require_calibration clock.devices

abbrev pub IsIn : ℕ → List ℕ → Type 0
IsIn d [] = ⊥
IsIn d (x ∷ xs) = (d ≡ x) ⊎ IsIn d xs

-- The keys of a list go up, by the order of `i64`.
abbrev pub NoneBelow : (ℕ → ℕ) → ℕ → List ℕ → Type 0
NoneBelow key bound [] = Unit
NoneBelow key bound (x ∷ xs) = (bound ≤ i64_rank (key x)) × NoneBelow key bound xs

abbrev pub IsAscending : (ℕ → ℕ) → List ℕ → Type 0
IsAscending key [] = Unit
IsAscending key (x ∷ xs) = NoneBelow key (i64_rank (key x)) xs × IsAscending key xs

-- What the sort of the standard library promises: by any key, it keeps the elements, and puts them in
-- the order of their keys.
abbrev pub Sorts : ((ℕ → ℕ) → List ℕ → List ℕ) → Type 0
Sorts sort =
    (key : ℕ → ℕ) (xs : List ℕ)
    → ((d : ℕ) → IsIn d (sort key xs) ↔ IsIn d xs) × IsAscending key (sort key xs)

module _ (rating : ℕ → ℕ) where
  abbrev pub NoneAbove : ℕ → List ℕ → Type 0
  NoneAbove bound [] = Unit
  NoneAbove bound (x ∷ xs) = (rating x ≤ bound) × NoneAbove bound xs

  abbrev pub IsDescending : List ℕ → Type 0
  IsDescending [] = Unit
  IsDescending (x ∷ xs) = NoneAbove (rating x) xs × IsDescending xs

  pub NoneAbove-IsIn :
      (xs : List ℕ) (bound d : ℕ) → NoneAbove bound xs → IsIn d xs → rating d ≤ bound
  NoneAbove-IsIn [] bound d h i = absurd i
  NoneAbove-IsIn (x ∷ xs) bound d h (inl e) = rw e h.0
  NoneAbove-IsIn (x ∷ xs) bound d h (inr i) = NoneAbove-IsIn xs bound d h.1 i

  -- The order of the keys is that of the ratings, the highest first.
  NoneBelow-NoneAbove :
      (x : ℕ) (xs : List ℕ)
      → ((d : ℕ) → rating d < i64_half)
      → NoneBelow (sort_key rating) (i64_rank (sort_key rating x)) xs
      → NoneAbove (rating x) xs
  unfolding sort_key
  NoneBelow-NoneAbove x [] small h = tt
  NoneBelow-NoneAbove x (y ∷ ys) small h =
      (omega (arith, h.0, small x, small y), NoneBelow-NoneAbove x ys small h.1)

  IsAscending-IsDescending :
      (xs : List ℕ)
      → ((d : ℕ) → rating d < i64_half)
      → IsAscending (sort_key rating) xs
      → IsDescending xs
  IsAscending-IsDescending [] small h = tt
  IsAscending-IsDescending (x ∷ xs) small h =
      (NoneBelow-NoneAbove x xs small h.0, IsAscending-IsDescending xs small h.1)

  -- The device is one of the list and has the property, and no other with the property has a higher
  -- rating.
  abbrev pub IsBestOf : (ℕ → Bool) → List ℕ → ℕ → Type 0
  IsBestOf is_able xs b =
      IsIn b xs
      × (is_able b ≡ true)
      × ((d : ℕ) → IsIn d xs → is_able d ≡ true → rating d ≤ rating b)

  -- There is no such device where the answer is none.
  abbrev pub AnswersBest : (ℕ → Bool) → List ℕ → Option ℕ → Type 0
  AnswersBest is_able xs none = (d : ℕ) → IsIn d xs → is_able d ≡ false
  AnswersBest is_able xs (some b) = IsBestOf is_able xs b

  find_steady-AnswersBest :
      (require_calibration : ℕ → Bool) (xs : List ℕ)
      → IsDescending xs
      → AnswersBest (λ d. not (require_calibration d)) xs (find_steady require_calibration xs)
  unfolding find_steady
  find_steady-AnswersBest require_calibration [] h = λ d i. absurd i
  find_steady-AnswersBest require_calibration (x ∷ xs) h =
      elim (Bool-cases (not (require_calibration x))) [
        | inl e ↦ rw e (
          inl refl,
          e,
          λ d i able. elim i [
            | inl same ↦ rw same (omega arith)
            | inr j ↦ NoneAbove-IsIn xs (rating x) d h.0 j
          ],
        )
        | inr e ↦ rw e (
            later (find_steady require_calibration xs) e
              (find_steady-AnswersBest require_calibration xs h.1))
      ]
    where
      later :
          (o : Option ℕ)
          → not (require_calibration x) ≡ false
          → AnswersBest (λ d. not (require_calibration d)) xs o
          → AnswersBest (λ d. not (require_calibration d)) (x ∷ xs) o
      later none e k = λ d i. elim i [ inl same ↦ rw same e | inr j ↦ k d j ]
      later (some b) e k =
          (inr k.0, k.1, λ d i able. elim i [ inl same ↦ absurd (cc) | inr j ↦ k.2 d j able ])

-- A call that goes on after another returns only where that one does.
bind_returns :
    {A B : Type 0} (o : Outcome A) (f : A → Outcome B) (b : B)
    → (o >>= f) ≡ ok b
    → (a : A) × (f a ≡ ok b)
bind_returns (ok a) f b e = (a, e)
bind_returns panic f b e = absurd cc
bind_returns undefined f b e = absurd cc

ok-inj : {A : Type 0} (a b : A) → ok a ≡ ok b → a ≡ b
ok-inj a b e = cc

switch_from-device :
    (now : ℕ → ClockTime) (device : ℕ) (s s' : SystemTime) (current : ℕ)
    → s.device ≡ some current
    → switch_from now device s current ≡ ok s'
    → s'.device ≡ some device
unfolding switch_from
switch_from-device now device s s' current at e = elim (Bool-cases (device == current)) [
  | inl same ↦ kept same (rw same refl)
  | inr other ↦ switched (bind_returns (count_up s (now current)) _ s' (sym (rw other refl) ∙ e))
]
  where
    kept :
        (device == current) ≡ true
        → switch_from now device s current ≡ ok s
        → s'.device ≡ some device
    kept same given =
        ap (λ x. x.device) (sym (ok-inj s s' (sym given ∙ e)))
        ∙ at
        ∙ ap some (sym ((==_iff device current).0 same))

    switched :
        ((offset : ClockTime) × (ok
              (record s { startup_offset = offset; device = some device; last_tick = now device })
            ≡ ok s'))
        → s'.device ≡ some device
    switched (offset, k) = ap (λ x. x.device) (sym (ok-inj _ s' k))

update_device-device :
    (now : ℕ → ClockTime) (rtc : RtcTime) (device : ℕ) (s s' : SystemTime) (o : Option ℕ)
    → s.device ≡ o
    → update_device now rtc device s ≡ ok s'
    → s'.device ≡ some device
unfolding update_device
update_device-device now rtc device s s' (some current) at e =
    switch_from-device now device s s' current at
      (sym (update_device-switch_from now rtc device s current at) ∙ e)
update_device-device now rtc device s s' none at e =
    first (bind_returns (unix_time rtc) _ s' (sym (rw at refl) ∙ e))
  where
    first :
        ((start : ClockTime) × (ok (record {
          start_unix = start;
          last_tick = now device;
          startup_offset = start_of_time;
          device = some device;
        })
            ≡ ok s'))
        → s'.device ≡ some device
    first (start, k) = ap (λ x. x.device) (sym (ok-inj _ s' k))

-- Where the devices show times, the one in use none before its last tick, and the machine's clock a
-- date from 1970 on, the system time can change to any device.
update_device-ok :
    (now : ℕ → ClockTime) (rtc : RtcTime) (start : ClockTime) (device : ℕ) (s : SystemTime)
    (o : Option ℕ)
    → s.device ≡ o
    → IsAhead now s
    → unix_time rtc ≡ ok start
    → (s' : SystemTime) × (update_device now rtc device s ≡ ok s')
unfolding update_device
update_device-ok now rtc start device s none at ahead dated = (
  record {
    start_unix = start;
    last_tick = now device;
    startup_offset = start_of_time;
    device = some device;
  },
  rw (at, dated) refl,
)
update_device-ok now rtc start device s (some current) at ahead dated =
    elim (Bool-cases (device == current)) [
      | inl same ↦
          (s, update_device-switch_from now rtc device s current at ∙ rw (switch_from, same) refl)
      | inr other ↦
          let (o, e, _) =
            count_up-eq s (now current) (ahead.shown current) ahead.last (ahead.ahead current at) in
          (
            record s { startup_offset = o; device = some device; last_tick = now device },
            update_device-switch_from now rtc device s current at
                ∙ rw (switch_from, other) (rw e refl),
          )
    ]

IsIn-append : (xs : List ℕ) (d : ℕ) → IsIn d (xs ++ d ∷ [])
IsIn-append [] d = inl refl
IsIn-append (x ∷ xs) d = inr (IsIn-append xs d)

not_empty :
    (xs : List ℕ) (d : ℕ) → IsIn d xs → (best : ℕ) × (others : List ℕ) × (xs ≡ best ∷ others)
not_empty [] d i = absurd i
not_empty (x ∷ xs) d i = (x, xs, refl)

-- Where the ratings are below 2 ^ 63, the devices show times, the one in use none before its last
-- tick, and the machine's clock a date from 1970 on, `add_device` returns, with any sort that keeps the
-- elements and orders them by their keys. The clock then has the device beside those it had,
-- `get_best_clock` answers one with the highest rating, which the system time uses, and
-- `get_best_for_calibration` one with the highest rating of those that need no calibration, or none
-- where all do.
pub add_device-AnswersBest :
    (rating : ℕ → ℕ) (require_calibration : ℕ → Bool) (sort : (ℕ → ℕ) → List ℕ → List ℕ)
    (now : ℕ → ClockTime) (rtc : RtcTime) (start : ClockTime) (device : ℕ) (clock : Clock)
    → Sorts sort
    → ((d : ℕ) → rating d < i64_half)
    → IsAhead now clock.system_time
    → unix_time rtc ≡ ok start
    → (clock' : Clock) × (add_device sort rating now rtc device clock ≡ ok clock')
      × (clock'.system_time.device ≡ get_best_clock clock')
      × ((d : ℕ) → IsIn d clock'.devices ↔ IsIn d (clock.devices ++ device ∷ []))
      × AnswersBest rating (λ d. true) clock'.devices (get_best_clock clock')
      × AnswersBest rating
          (λ d. not (require_calibration d))
          clock'.devices
          (get_best_for_calibration require_calibration clock')
unfolding add_device get_best_clock get_best_for_calibration
add_device-AnswersBest rating require_calibration sort now rtc start device clock sorts small ahead
      dated =
    let all = clock.devices ++ device ∷ [] in
    let (same, up) = sorts (sort_key rating) all in
    let (best, others, e) =
      not_empty (sort (sort_key rating) all) device
        ((same device).1 (IsIn-append clock.devices device)) in
    let (s, u) =
      update_device-ok now rtc start best clock.system_time clock.system_time.device refl ahead
        dated in
    let order =
      IsAscending-IsDescending rating (best ∷ others) small
        (subst (IsAscending (sort_key rating)) e up) in
    (
      record { devices = best ∷ others; system_time = s },
      rw (add_device, e, u) refl,
      update_device-device now rtc best clock.system_time s clock.system_time.device refl u,
      subst (λ xs. ((d : ℕ) → IsIn d xs ↔ IsIn d all)) e same,
      (
        inl refl,
        refl,
        λ d i able. elim i [
          | inl first ↦ rw first (omega arith)
          | inr j ↦ NoneAbove-IsIn rating others (rating best) d order.0 j
        ],
      ),
      find_steady-AnswersBest rating require_calibration (best ∷ others) order,
    )
