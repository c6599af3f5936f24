-- ===== src/Sync/Once.antt =====
-- kernel/src/sync/once.rs: `OnceLock`, which threads set, interleaved. A step of a thread is one access
-- to the state, or the write of the value. A load may return a state that was stored before the last
-- one, as atomic loads may, `Relaxed` ones above all; an exchange that succeeds has read the last one.
pub mod Invariant
pub mod Value
mod Examples
use emerald.Prelude.{
  ℕ, zero, suc, Bool, true, false, Option, none, some, List, [], ◌∷◌, Outcome, ok, panic, undefined,
  ◌>>=◌, if◌then◌else◌,
}

pub data State : Type 0 where
  init running done : State

-- `none` is a value that is not initialised.
pub record OnceLock {ℓ} (A : Type ℓ) : Type ℓ where
  pub state : State
  pub value : Option A

-- Where a thread is in `set`: the access that it makes next. `accepted` and `refused` are the replies
-- `Ok` and `Err`.
pub data Phase {ℓ} (A : Type ℓ) : Type ℓ where
  idle accepted refused : Phase A
  check load swap fill : A → Phase A
  finish : Phase A

pub data Event {ℓ} (A : Type ℓ) : Type ℓ where
  set : A → Event A
  -- the next access, with whether the weak exchange fails, and the state that a load is to return
  next_access : Bool → State → Event A

-- The state that a load returns: one that was stored before, else the last one.
abbrev pub visible : State → State → State
visible init last = init
visible running init = init
visible running _ = running
visible done last = last

module _ {ℓ} {A : Type ℓ} where
  unfoldable pub new : OnceLock A
  new = record { state = init; value = none }

  -- The loop of `Once::call`, on the state that it has read.
  unfoldable pub on_state : State → A → Outcome (Phase A)
  on_state init v = ok (swap v)
  on_state running v = panic
  on_state done v = ok accepted

  unfoldable pub access : Bool → State → OnceLock A → Phase A → Outcome (OnceLock A × Phase A)
  unfolding on_state
  access weak seen s idle = ok (s, idle)
  access weak seen s accepted = ok (s, accepted)
  access weak seen s refused = ok (s, refused)
  access weak seen s (check v) = ok (s, elim (visible seen s.state) [ done ↦ refused | _ ↦ load v ])
  access weak seen s (load v) = on_state (visible seen s.state) v >>= λ p. ok (s, p)
  access true seen s (swap v) = on_state (visible seen s.state) v >>= λ p. ok (s, p)
  access false seen s (swap v) = elim (s.state) [
    | init ↦ ok (record s { state = running }, fill v)
    | _ ↦ (on_state (visible seen s.state) v >>= λ p. ok (s, p))
  ]
  access weak seen s (fill v) = ok (record s { value = some v }, finish)
  access weak seen s finish = ok (record s { state = done }, accepted)

  -- A thread that has an answer may call again.
  unfoldable pub move : Event A → OnceLock A → Phase A → Outcome (OnceLock A × Phase A)
  unfolding access
  move (set v) s idle = ok (s, check v)
  move (set v) s accepted = ok (s, check v)
  move (set v) s refused = ok (s, check v)
  move (set v) s p = ok (s, p)
  move (next_access weak seen) s p = access weak seen s p

  unfoldable pub move_at :
      Event A → ℕ → OnceLock A → List (Phase A) → Outcome (OnceLock A × List (Phase A))
  unfolding move
  move_at ev i s [] = ok (s, [])
  move_at ev zero s (p ∷ ps) = move ev s p >>= λ r. ok (r.0, r.1 ∷ ps)
  move_at ev (suc i) s (p ∷ ps) = move_at ev i s ps >>= λ r. ok (r.0, p ∷ r.1)

  unfoldable pub run :
      List (ℕ × Event A) → OnceLock A → List (Phase A) → Outcome (OnceLock A × List (Phase A))
  unfolding move_at
  run [] s ps = ok (s, ps)
  run ((i, ev) ∷ rest) s ps = move_at ev i s ps >>= λ r. run rest r.0 r.1
