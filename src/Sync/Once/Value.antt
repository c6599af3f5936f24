-- ===== src/Sync/Once/Value.antt =====
-- kernel/src/sync/once.rs: the value of the lock, over any schedule of threads.
use emerald.Prelude.{
  ℕ, zero, suc, ◌+◌, ◌≤◌, ◌≡◌, ◌⊎◌, inl, inr, refl, ◌∙◌, Option, none, some, List, [], ◌∷◌, All,
  Outcome, ok, panic, undefined, ◌>>=◌, arith,
}
use mathlib.Core.Path.{subst}
use emerald.Sync.Once.{
  State, init, running, done, OnceLock, Phase, idle, finish, Event, move, move_at, run, new,
}
use emerald.Sync.Once.Invariant.{busy, stored, Agrees, Keeps, Keeps-refl, Moved, move-Moved}

module _ {A : Type 0} where
  abbrev pub all_busy : List (Phase A) → ℕ
  all_busy [] = 0
  all_busy (p ∷ ps) = busy p + all_busy ps

  abbrev pub all_stored : List (Phase A) → ℕ
  all_stored [] = 0
  all_stored (p ∷ ps) = stored p + all_stored ps

  stored-le : (p : Phase A) → stored p ≤ busy p
  stored-le finish = omega arith
  stored-le _ = omega arith

  all_stored-le : (ps : List (Phase A)) → all_stored ps ≤ all_busy ps
  all_stored-le [] = omega arith
  all_stored-le (p ∷ ps) = omega (arith, stored-le p, all_stored-le ps)

  abbrev pub AllMoved : ℕ → ℕ → State → Option A → Outcome (OnceLock A × List (Phase A)) → Type 0
  AllMoved b w st value (ok (s', ps')) =
      Agrees s'.state s'.value (b + all_busy ps') (w + all_stored ps')
      × Keeps st value s'.state s'.value
  AllMoved b w st value panic = Unit
  AllMoved b w st value undefined = ⊥

  Agrees-subst :
      (st : State) (value : Option A) (b b' w w' : ℕ)
      → b ≡ b'
      → w ≡ w'
      → Agrees st value b w
      → Agrees st value b' w'
  Agrees-subst init value b b' w w' hb hw (x, y, z) =
      (omega (arith, x, hb), omega (arith, y, hw), z)
  Agrees-subst running value b b' w w' hb hw (x, y) = (omega (arith, x, hb), omega (arith, y, hw))
  Agrees-subst done value b b' w w' hb hw (x, y, z) =
      (omega (arith, x, hb), omega (arith, y, hw), z)

  head-AllMoved :
      (b w : ℕ) (st : State) (value : Option A) (ps : List (Phase A))
      (o : Outcome (OnceLock A × Phase A))
      → Moved (b + all_busy ps) (w + all_stored ps) st value o
      → AllMoved b w st value (o >>= λ r. ok (r.0, r.1 ∷ ps))
  head-AllMoved b w st value ps (ok (s', p')) (a, k) =
      (Agrees-subst s'.state s'.value _ _ _ _ (omega arith) (omega arith) a, k)
  head-AllMoved b w st value ps panic m = m
  head-AllMoved b w st value ps undefined m = m

  tail-AllMoved :
      (b w : ℕ) (st : State) (value : Option A) (p : Phase A)
      (o : Outcome (OnceLock A × List (Phase A)))
      → AllMoved (b + busy p) (w + stored p) st value o
      → AllMoved b w st value (o >>= λ r. ok (r.0, p ∷ r.1))
  tail-AllMoved b w st value p (ok (s', ps')) (a, k) =
      (Agrees-subst s'.state s'.value _ _ _ _ (omega arith) (omega arith) a, k)
  tail-AllMoved b w st value p panic m = m
  tail-AllMoved b w st value p undefined m = m

  move_at-AllMoved :
      (ev : Event A) (i b w : ℕ) (s : OnceLock A) (ps : List (Phase A))
      → w ≤ b
      → Agrees s.state s.value (b + all_busy ps) (w + all_stored ps)
      → AllMoved b w s.state s.value (move_at ev i s ps)
  unfolding move_at
  move_at-AllMoved ev i b w s [] h a = (a, Keeps-refl s.state s.value)
  move_at-AllMoved ev zero b w s (p ∷ ps) h a = head-AllMoved b w s.state s.value ps (move ev s p) (
      move-Moved ev (b + all_busy ps) (w + all_stored ps) s.state s.value p
        (omega (arith, h, all_stored-le ps))
        (Agrees-subst s.state s.value _ _ _ _ (omega arith) (omega arith) a))
  move_at-AllMoved ev (suc i) b w s (p ∷ ps) h a =
      tail-AllMoved b w s.state s.value p (move_at ev i s ps) (
        move_at-AllMoved ev i (b + busy p) (w + stored p) s ps (omega (arith, h, stored-le p))
          (Agrees-subst s.state s.value _ _ _ _ (omega arith) (omega arith) a))

  -- The lock and its threads agree.
  abbrev pub IsOnce : OnceLock A → List (Phase A) → Type 0
  IsOnce s ps = Agrees s.state s.value (all_busy ps) (all_stored ps)

  -- A schedule panics, or comes to a lock that agrees and has the value that it had.
  abbrev pub Ran : State → Option A → Outcome (OnceLock A × List (Phase A)) → Type 0
  Ran st value (ok (s', ps')) = IsOnce s' ps' × Keeps st value s'.state s'.value
  Ran st value panic = Unit
  Ran st value undefined = ⊥

  Keeps-trans :
      (st₁ st₂ st₃ : State) (v₁ v₂ v₃ : Option A)
      → Keeps st₁ v₁ st₂ v₂
      → Keeps st₂ v₂ st₃ v₃
      → Keeps st₁ v₁ st₃ v₃
  Keeps-trans init st₂ st₃ v₁ v₂ v₃ h k = tt
  Keeps-trans running st₂ st₃ v₁ v₂ v₃ h k = tt
  Keeps-trans done done st₃ v₁ v₂ v₃ h k = (k.0, k.1 ∙ h.1)
  Keeps-trans done init st₃ v₁ v₂ v₃ h k = cc h.0
  Keeps-trans done running st₃ v₁ v₂ v₃ h k = cc h.0

  Ran-later :
      (s₀ s₁ : OnceLock A) (o : Outcome (OnceLock A × List (Phase A)))
      → Keeps s₀.state s₀.value s₁.state s₁.value
      → Ran s₁.state s₁.value o
      → Ran s₀.state s₀.value o
  Ran-later s₀ s₁ (ok (s', ps')) h (a, k) =
      (a, Keeps-trans s₀.state s₁.state s'.state s₀.value s₁.value s'.value h k)
  Ran-later s₀ s₁ panic h r = tt
  Ran-later s₀ s₁ undefined h r = r

  run-Ran :
      (sched : List (ℕ × Event A)) (s : OnceLock A) (ps : List (Phase A))
      → IsOnce s ps
      → Ran s.state s.value (run sched s ps)
  unfolding run
  run-Ran [] s ps a = (a, Keeps-refl s.state s.value)
  run-Ran ((i, ev) ∷ rest) s ps a =
      go (λ s₁ ps₁. run-Ran rest s₁ ps₁) (move_at ev i s ps)
        (move_at-AllMoved ev i 0 0 s ps (omega arith)
          (Agrees-subst s.state s.value _ _ _ _ (omega arith) (omega arith) a))
    where
      go :
          ((s₁ : OnceLock A) (ps₁ : List (Phase A))
            → IsOnce s₁ ps₁
            → Ran s₁.state s₁.value (run rest s₁ ps₁))
          → (o : Outcome (OnceLock A × List (Phase A))) → AllMoved 0 0 s.state s.value o
          → Ran s.state s.value (o >>= λ r. run rest r.0 r.1)
      go again (ok (s₁, ps₁)) (b, k) =
          Ran-later s s₁ (run rest s₁ ps₁) k
            (again s₁ ps₁ (Agrees-subst s₁.state s₁.value _ _ _ _ (omega arith) (omega arith) b))
      go again panic m = tt
      go again undefined m = m

  -- The lock has a value exactly where it is set, or a thread has written and is to say so.
  abbrev pub Holds : OnceLock A → OnceLock A → Type 0
  Holds s s' =
      ((s.state ≡ init) × (s.value ≡ none))
      ⊎ (s.state ≡ running)
      ⊎ ((s.state ≡ done)
          × ((v : A) × (s.value ≡ some v) × (s'.state ≡ done) × (s'.value ≡ some v)))

  Agrees-Holds :
      (s : OnceLock A) (b w : ℕ) (s' : OnceLock A)
      → Agrees s.state s.value b w
      → Keeps s.state s.value s'.state s'.value
      → Holds s s'
  Agrees-Holds s b w s' a k = go s.state s.value a k
    where
      go :
          (st : State) (value : Option A)
          → Agrees st value b w
          → Keeps st value s'.state s'.value
          → Holds (record { state = st; value = value }) s'
      go init none a k = inl (refl, refl)
      go init (some v) (x, y, z) k = absurd (omega (arith, z))
      go running value a k = inr (inl refl)
      go done none (x, y, z) k = absurd (omega (arith, z))
      go done (some v) a (st, same) = inr (inr (refl, (v, refl, st, same)))

  Agrees-busy : (st : State) (value : Option A) (b w : ℕ) → Agrees st value b w → b ≤ 1
  Agrees-busy init value b w a = omega (arith, a.0)
  Agrees-busy running value b w a = omega (arith, a.0)
  Agrees-busy done value b w a = omega (arith, a.0)

  abbrev pub IsFresh : Phase A → Type 0
  IsFresh p = p ≡ idle

  fresh-busy : (ps : List (Phase A)) → All IsFresh ps → (all_busy ps ≡ 0) × (all_stored ps ≡ 0)
  fresh-busy [] h = (refl, refl)
  fresh-busy (p ∷ ps) (e, h) = let (x, y) = fresh-busy ps h in (rw (e, x) refl, rw (e, y) refl)

  pub new-IsOnce : (ps : List (Phase A)) → All IsFresh ps → IsOnce new ps
  unfolding new
  new-IsOnce ps h = let (x, y) = fresh-busy ps h in (x, y, refl)

  -- From a new lock, under every interleaving of calls of `set` in which no call has panicked, and
  -- also where the loads return states that were stored before: no two threads are between the exchange
  -- and the store that ends the call, and the lock is untouched and without a value, or a thread is
  -- there, or the lock is done and has a value, which it then keeps over any second schedule that goes
  -- on from there, whatever is set meanwhile.
  pub run-value :
      (first second : List (ℕ × Event A)) (ps : List (Phase A)) (s : OnceLock A)
      (ps' : List (Phase A)) (s' : OnceLock A) (ps'' : List (Phase A))
      → All IsFresh ps
      → run first new ps ≡ ok (s, ps')
      → run second s ps' ≡ ok (s', ps'')
      → (all_busy ps' ≤ 1) × Holds s s'
  unfolding new
  run-value first second ps s ps' s' ps'' h e₁ e₂ =
      let (a, _) = subst (Ran init none) e₁ (run-Ran first new ps (new-IsOnce ps h)) in
      let (_, k) = subst (Ran s.state s.value) e₂ (run-Ran second s ps' a) in
      (
        Agrees-busy s.state s.value (all_busy ps') (all_stored ps') a,
        Agrees-Holds s (all_busy ps') (all_stored ps') s' a k,
      )
