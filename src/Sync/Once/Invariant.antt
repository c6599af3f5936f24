-- ===== src/Sync/Once/Invariant.antt =====
-- kernel/src/sync/once.rs: what the state of the lock says about one thread and the others.
use emerald.Prelude.{
  ℕ, ◌+◌, ◌≤◌, ◌≡◌, refl, Bool, true, false, Option, none, some, Outcome, ok, panic, undefined,
  ◌>>=◌, arith,
}
use emerald.Sync.Once.{
  State, init, running, done, OnceLock, Phase, idle, accepted, refused, check, load, swap, fill,
  finish, Event, set, next_access, visible, on_state, access, move,
}

module _ {A : Type 0} where
  -- Whether a thread runs the closure, and whether it has written the value.
  abbrev pub busy : Phase A → ℕ
  busy (fill v) = 1
  busy finish = 1
  busy _ = 0

  abbrev pub stored : Phase A → ℕ
  stored finish = 1
  stored _ = 0

  abbrev pub count : Option A → ℕ
  count none = 0
  count (some v) = 1

  -- The lock, where so many threads are busy and so many of these have written.
  abbrev pub Agrees : State → Option A → ℕ → ℕ → Type 0
  Agrees init value b w = (b ≡ 0) × (w ≡ 0) × (count value ≡ 0)
  Agrees running value b w = (b ≡ 1) × (count value ≡ w)
  Agrees done value b w = (b ≡ 0) × (w ≡ 0) × (count value ≡ 1)

  -- Once it is set, the lock stays so, with its value.
  abbrev pub Keeps : State → Option A → State → Option A → Type 0
  Keeps done value after value' = (after ≡ done) × (value' ≡ value)
  Keeps _ value after value' = Unit

  pub Keeps-refl : (st : State) (value : Option A) → Keeps st value st value
  Keeps-refl init value = tt
  Keeps-refl running value = tt
  Keeps-refl done value = (refl, refl)

  abbrev pub Moved : ℕ → ℕ → State → Option A → Outcome (OnceLock A × Phase A) → Type 0
  Moved b w st value (ok (s', p')) =
      Agrees s'.state s'.value (b + busy p') (w + stored p') × Keeps st value s'.state s'.value
  Moved b w st value panic = Unit
  Moved b w st value undefined = ⊥

  check-Moved :
      (seen : State) (b w : ℕ) (st : State) (value : Option A) (v : A)
      → Agrees st value (b + 0) (w + 0)
      → Moved b w st value
          (ok (record { state = st; value = value }, elim seen [ done ↦ refused | _ ↦ load v ]))
  check-Moved init b w st value v a = (a, Keeps-refl st value)
  check-Moved running b w st value v a = (a, Keeps-refl st value)
  check-Moved done b w st value v a = (a, Keeps-refl st value)

  on_state-Moved :
      (seen : State) (b w : ℕ) (st : State) (value : Option A) (v : A)
      → Agrees st value (b + 0) (w + 0)
      → Moved b w st value (on_state seen v >>= λ p. ok (record { state = st; value = value }, p))
  unfolding on_state
  on_state-Moved init b w st value v a = (a, Keeps-refl st value)
  on_state-Moved running b w st value v a = tt
  on_state-Moved done b w st value v a = (a, Keeps-refl st value)

  access-Moved :
      (weak : Bool) (seen : State) (b w : ℕ) (st : State) (value : Option A) (p : Phase A)
      → w ≤ b
      → Agrees st value (b + busy p) (w + stored p)
      → Moved b w st value (access weak seen (record { state = st; value = value }) p)
  unfolding access on_state
  access-Moved weak seen b w st value idle h a = (a, Keeps-refl st value)
  access-Moved weak seen b w st value accepted h a = (a, Keeps-refl st value)
  access-Moved weak seen b w st value refused h a = (a, Keeps-refl st value)
  access-Moved weak seen b w st value (check v) h a = check-Moved (visible seen st) b w st value v a
  access-Moved weak seen b w st value (load v) h a =
      on_state-Moved (visible seen st) b w st value v a
  access-Moved true seen b w st value (swap v) h a =
      on_state-Moved (visible seen st) b w st value v a
  access-Moved false seen b w init value (swap v) h (x, y, z) =
      ((omega (arith, x), omega (arith, y, z)), tt)
  access-Moved false seen b w running value (swap v) h a =
      on_state-Moved (visible seen running) b w running value v a
  access-Moved false seen b w done value (swap v) h a =
      on_state-Moved (visible seen done) b w done value v a
  access-Moved weak seen b w init value (fill v) h (x, y, z) = absurd (omega (arith, x))
  access-Moved weak seen b w running none (fill v) h (x, y) =
      ((omega (arith, x), omega (arith, x, y, h)), tt)
  access-Moved weak seen b w running (some u) (fill v) h (x, y) = absurd (omega (arith, x, y, h))
  access-Moved weak seen b w done value (fill v) h (x, y, z) = absurd (omega (arith, x))
  access-Moved weak seen b w init value finish h (x, y, z) = absurd (omega (arith, x))
  access-Moved weak seen b w running value finish h (x, y) =
      ((omega (arith, x), omega (arith, x, h), omega (arith, x, y, h)), tt)
  access-Moved weak seen b w done value finish h (x, y, z) = absurd (omega (arith, x))

  pub move-Moved :
      (ev : Event A) (b w : ℕ) (st : State) (value : Option A) (p : Phase A)
      → w ≤ b
      → Agrees st value (b + busy p) (w + stored p)
      → Moved b w st value (move ev (record { state = st; value = value }) p)
  unfolding move
  move-Moved (set v) b w st value idle h a = (a, Keeps-refl st value)
  move-Moved (set v) b w st value accepted h a = (a, Keeps-refl st value)
  move-Moved (set v) b w st value refused h a = (a, Keeps-refl st value)
  move-Moved (set v) b w st value (check u) h a = (a, Keeps-refl st value)
  move-Moved (set v) b w st value (load u) h a = (a, Keeps-refl st value)
  move-Moved (set v) b w st value (swap u) h a = (a, Keeps-refl st value)
  move-Moved (set v) b w st value (fill u) h a = (a, Keeps-refl st value)
  move-Moved (set v) b w st value finish h a = (a, Keeps-refl st value)
  move-Moved (next_access weak seen) b w st value p h a = access-Moved weak seen b w st value p h a
