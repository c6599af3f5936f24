-- ===== src/Clock/DeviceExamples.antt =====
-- A sort of devices, with which the theorem on the devices of kernel/src/devices/clock/mod.rs applies.
use emerald.Prelude.{
  ℕ, ◌<◌, ◌≤◌, ◌≡◌, ◌⊎◌, ◌↔◌, inl, inr, refl, Bool, true, not, some, List, [], ◌∷◌, ◌++◌, arith, ok,
  leb, leb→le, ◌==◌, if◌then◌else◌, Bool-cases,
}
use emerald.Clock.Rtc.{RtcTime, seconds_since_unix_epoch, days_in_last_years}
use emerald.Clock.Time.{ClockTime}
use emerald.Clock.System.{start_of_time, unix_time, IsAhead}
use emerald.Clock.Devices.{
  Clock, add_device, get_best_clock, get_best_for_calibration, IsIn, NoneBelow, IsAscending, Sorts,
  i64_rank, i64_half, sort_key, AnswersBest, add_device-AnswersBest,
}

module _ (key : ℕ → ℕ) where
  abbrev insert : ℕ → List ℕ → List ℕ
  insert x [] = x ∷ []
  insert x (y ∷ ys) =
      let rest = insert x ys in
      if leb (i64_rank (key x)) (i64_rank (key y)) then (x ∷ y ∷ ys) else (y ∷ rest)

  abbrev sort : List ℕ → List ℕ
  sort [] = []
  sort (x ∷ xs) = insert x (sort xs)

  insert-IsIn : (d x : ℕ) (ys : List ℕ) → IsIn d (insert x ys) ↔ ((d ≡ x) ⊎ IsIn d ys)
  insert-IsIn d x [] = (λ i. i, λ i. i)
  insert-IsIn d x (y ∷ ys) = elim (Bool-cases (leb (i64_rank (key x)) (i64_rank (key y)))) [
    | inl e ↦ rw e (λ i. i, λ i. i)
    | inr e ↦ rw e (
      λ i. elim i [
        | inl same ↦ inr (inl same)
        | inr j ↦ elim ((insert-IsIn d x ys).0 j) [ inl same ↦ inl same | inr k ↦ inr (inr k) ]
      ],
      λ i. elim i [
        | inl same ↦ inr ((insert-IsIn d x ys).1 (inl same))
        | inr j ↦ elim j [ inl same ↦ inl same | inr k ↦ inr ((insert-IsIn d x ys).1 (inr k)) ]
      ],
    )
  ]

  sort-IsIn : (d : ℕ) (xs : List ℕ) → IsIn d (sort xs) ↔ IsIn d xs
  sort-IsIn d [] = (λ i. i, λ i. i)
  sort-IsIn d (x ∷ xs) = (
    λ i. elim ((insert-IsIn d x (sort xs)).0 i) [
      | inl same ↦ inl same
      | inr j ↦ inr ((sort-IsIn d xs).0 j)
    ],
    λ i.
        (insert-IsIn d x (sort xs)).1
          (elim i [ inl same ↦ inl same | inr j ↦ inr ((sort-IsIn d xs).1 j) ]),
  )

  insert-NoneBelow :
      (bound x : ℕ) (ys : List ℕ)
      → bound ≤ i64_rank (key x)
      → NoneBelow key bound ys
      → NoneBelow key bound (insert x ys)
  insert-NoneBelow bound x [] le h = (le, tt)
  insert-NoneBelow bound x (y ∷ ys) le h =
      elim (Bool-cases (leb (i64_rank (key x)) (i64_rank (key y)))) [
        | inl e ↦ rw e (le, h)
        | inr e ↦ rw e (h.0, insert-NoneBelow bound x ys le h.1)
      ]

  NoneBelow-le : (a b : ℕ) (ys : List ℕ) → b ≤ a → NoneBelow key a ys → NoneBelow key b ys
  NoneBelow-le a b [] le h = tt
  NoneBelow-le a b (y ∷ ys) le h = (omega (arith, h.0), NoneBelow-le a b ys le h.1)

  insert-IsAscending : (x : ℕ) (ys : List ℕ) → IsAscending key ys → IsAscending key (insert x ys)
  insert-IsAscending x [] h = (tt, tt)
  insert-IsAscending x (y ∷ ys) h = elim (Bool-cases (leb (i64_rank (key x)) (i64_rank (key y)))) [
    | inl e ↦ rw e (
      (
        leb→le (i64_rank (key x)) (i64_rank (key y)) e,
        NoneBelow-le (i64_rank (key y)) (i64_rank (key x)) ys
            (leb→le (i64_rank (key x)) (i64_rank (key y)) e) h.0,
      ),
      h,
    )
    | inr e ↦ rw e (
      insert-NoneBelow (i64_rank (key y)) x ys (ground (arith, e)) h.0,
      insert-IsAscending x ys h.1,
    )
  ]

  sort-IsAscending : (xs : List ℕ) → IsAscending key (sort xs)
  sort-IsAscending [] = tt
  sort-IsAscending (x ∷ xs) = insert-IsAscending x (sort xs) (sort-IsAscending xs)

sort-Sorts : Sorts sort
sort-Sorts key xs = (λ d. sort-IsIn key d xs, sort-IsAscending key xs)

-- Device 1 is the best, and needs to be calibrated.
abbrev ratings : ℕ → ℕ
ratings d = if d == 1 then 300 else if d == 2 then 100 else 10

abbrev needs_calibration : ℕ → Bool
needs_calibration d = d == 1

abbrev shown : ℕ → ClockTime
shown d = record { nanoseconds = 0; seconds = 7 }

abbrev clock : Clock
clock = record {
  devices = 2 ∷ [];
  system_time = record {
    start_unix = start_of_time;
    last_tick = record { nanoseconds = 0; seconds = 5 };
    startup_offset = start_of_time;
    device = some 2;
  };
}

abbrev morning : RtcTime
morning = record { seconds = 0; minutes = 0; hours = 9; day_of_month = 1; month = 1; year = 2024 }

abbrev new_year : ClockTime
new_year = record { nanoseconds = 0; seconds = 1704099600 }

-- The sort puts the device that is added before the one with the lower rating.
ratings-sort : sort (sort_key ratings) (2 ∷ 1 ∷ []) ≡ 1 ∷ 2 ∷ []
unfolding sort_key
ratings-sort = refl

ratings_small : (d : ℕ) → ratings d < i64_half
ratings_small d = ground arith

clock-IsAhead : IsAhead shown clock.system_time
clock-IsAhead = record {
  shown = λ device. omega arith;
  last = omega arith;
  ahead = λ device e. omega arith;
}

morning-unix_time : unix_time morning ≡ ok new_year
unfolding seconds_since_unix_epoch days_in_last_years
morning-unix_time = refl

add_device-AnswersBest_example :
    (clock' : Clock) × (add_device sort ratings shown morning 1 clock ≡ ok clock')
    × (clock'.system_time.device ≡ get_best_clock clock')
    × ((d : ℕ) → IsIn d clock'.devices ↔ IsIn d (clock.devices ++ 1 ∷ []))
    × AnswersBest ratings (λ d. true) clock'.devices (get_best_clock clock')
    × AnswersBest ratings
        (λ d. not (needs_calibration d))
        clock'.devices
        (get_best_for_calibration needs_calibration clock')
add_device-AnswersBest_example =
    add_device-AnswersBest ratings needs_calibration sort shown morning new_year 1 clock sort-Sorts
      ratings_small clock-IsAhead morning-unix_time
