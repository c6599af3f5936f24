-- ===== src/Sync/Once/Examples.antt =====
-- Two threads that set one lock of kernel/src/sync/once.rs, and the theorem at them.
use emerald.Prelude.{ℕ, ◌≤◌, ◌≡◌, refl, true, false, some, List, [], ◌∷◌, ◌++◌, ok, panic, ◌>>=◌}
use emerald.Sync.Once.{
  init, done, done, OnceLock, Phase, idle, accepted, refused, Event, set, next_access, on_state,
  access, move, move_at, run, new,
}
use emerald.Sync.Once.Value.{all_busy, Holds, run-value}

abbrev step : Event ℕ
step = next_access false done

abbrev two_threads : List (Phase ℕ)
two_threads = idle ∷ idle ∷ []

-- Both have passed the check when thread 0 sets 7.
abbrev first_set : List (ℕ × Event ℕ)
first_set =
    (0, set 7)
    ∷ (1, set 8)
    ∷ (0, step)
    ∷ (1, step)
    ∷ (0, step)
    ∷ (0, next_access true init)
    ∷ (0, step)
    ∷ (0, step)
    ∷ (0, step)
    ∷ []

abbrev second_set : List (ℕ × Event ℕ)
second_set = (1, step) ∷ (0, set 9) ∷ (0, step) ∷ []

abbrev set_to_7 : OnceLock ℕ
set_to_7 = record { state = done; value = some 7 }

first_set-run : (run first_set new two_threads >>= λ r. ok r.0) ≡ ok set_to_7
unfolding run move_at move access on_state new
first_set-run = refl

-- Thread 1 is told `Ok`, although its value was not stored.
lost_set : run (first_set ++ second_set) new two_threads ≡ ok (set_to_7, refused ∷ accepted ∷ [])
unfolding run move_at move access on_state new
lost_set = refl

-- A call of `set` while another one runs panics.
race :
    run
      ((0, set 7) ∷ (1, set 8) ∷ (0, step) ∷ (0, step) ∷ (0, step) ∷ (1, step) ∷ (1, step) ∷ [])
      new
      two_threads
    ≡ panic
unfolding run move_at move access on_state new
race = refl

abbrev loaded : List (Phase ℕ)
loaded = accepted ∷ Phase.load 8 ∷ []

first_set-all : run first_set new two_threads ≡ ok (set_to_7, loaded)
unfolding run move_at move access on_state new
first_set-all = refl

second_set-all : run second_set set_to_7 loaded ≡ ok (set_to_7, refused ∷ accepted ∷ [])
unfolding run move_at move access on_state
second_set-all = refl

-- Thread 0 asks again, reads that the lock is new, and finds at the exchange that it is not.
abbrev stale_set : List (ℕ × Event ℕ)
stale_set = (0, set 9) ∷ (0, next_access false init) ∷ (0, next_access false init) ∷ (0, step) ∷ []

stale_set-run : run stale_set set_to_7 loaded ≡ ok (set_to_7, loaded)
unfolding run move_at move access on_state
stale_set-run = refl

run-value_example : (all_busy loaded ≤ 1) × Holds set_to_7 set_to_7
run-value_example =
    run-value first_set stale_set two_threads set_to_7 loaded set_to_7 loaded (refl, (refl, tt))
      first_set-all stale_set-run
