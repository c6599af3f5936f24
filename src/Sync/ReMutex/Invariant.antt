-- ===== src/Sync/ReMutex/Invariant.antt =====
-- What holds of a `ReMutex` of kernel/src/sync/spin/remutex.rs between two accesses.
use emerald.Prelude.{
  ℕ, ◌+◌, ◌≤◌, ◌<◌, ◌≡◌, ◌⊎◌, inl, inr, refl, sym, ap, ◌∙◌, Bool, true, false, Option, none, some,
  arith, Post, Post-bind, ensure, ensure-Post, ensure_any, ◌==◌, ltb, if◌then◌else◌, Bool-cases,
  ==_iff, ==-self, ==_of_ne,
}
use mathlib.Core.Path.{subst}
use emerald.Prelude.Words.{u64_mod}
use emerald.Sync.Lock.{unlocked, write_locked_all, try_write_lock, write_unlock}
use emerald.Sync.ReMutex.{
  Place, between, check_lock, want_lock, spin_lock, check_try, want_once, store_owner, clear_owner,
  unlock, pop_last, ReMutex, CpuThread, stands, owned_by, enter_again, pop_one, take_access,
}

-- The calls of `push_cli` that the call in progress has made.
abbrev pub pushed : Place → ℕ
pushed between = 0
pushed _ = 1

-- A CPU that does not have the lock.
abbrev IsOutside : Place → Type 0
IsOutside store_owner = ⊥
IsOutside clear_owner = ⊥
IsOutside unlock = ⊥
IsOutside _ = Unit

abbrev pub Outside : CpuThread → Type 0
Outside t = IsOutside t.place × (t.guards ≡ 0) × (pushed t.place ≤ t.n_cli)

-- The CPU that has it owns the lock, once and until its place says otherwise, as often as it has
-- guards.
abbrev IsInside : Place → Option ℕ → ℕ → ℕ → ℕ → Type 0
IsInside between o count cpu guards = (o ≡ some cpu) × (0 < guards) × (count ≡ guards)
IsInside check_lock o count cpu guards = (o ≡ some cpu) × (0 < guards) × (count ≡ guards)
IsInside check_try o count cpu guards = (o ≡ some cpu) × (0 < guards) × (count ≡ guards)
IsInside pop_last o count cpu guards = (o ≡ some cpu) × (0 < guards) × (count ≡ guards)
IsInside store_owner o count cpu guards = (o ≡ none) × (guards ≡ 0)
IsInside clear_owner o count cpu guards = (o ≡ some cpu) × (guards ≡ 0)
IsInside unlock o count cpu guards = (o ≡ none) × (guards ≡ 0)
IsInside _ o count cpu guards = ⊥

abbrev pub Inside : ReMutex → ℕ → CpuThread → Type 0
Inside s cpu t =
    IsInside t.place s.owner_cpu s.lock_count cpu t.guards × (t.guards + pushed t.place ≤ t.n_cli)

-- A move of the CPU that has the lock leaves it there, or gives it back.
abbrev pub MovedInside : ℕ → ReMutex × CpuThread → Type 0
MovedInside cpu (s, t) =
    ((s.word ≡ write_locked_all) × Inside s cpu t)
    ⊎ ((s.word ≡ unlocked) × (s.owner_cpu ≡ none) × Outside t)

-- A move of another CPU leaves the lock as it is, or takes it where it is free.
abbrev pub MovedOutside : ReMutex → ℕ → ReMutex × CpuThread → Type 0
MovedOutside s₀ cpu (s, t) =
    ((s ≡ s₀) × Outside t) ⊎ ((s₀.word ≡ unlocked) × (s.word ≡ write_locked_all) × Inside s cpu t)

abbrev pub at : Place → ℕ → ℕ → CpuThread
at p guards n_cli = record { place = p; guards = guards; n_cli = n_cli }

enter_again-Inside :
    (cpu : ℕ) (s : ReMutex) (p : Place) (g n : ℕ)
    → s.word ≡ write_locked_all
    → (s.owner_cpu ≡ some cpu) × (0 < g) × (s.lock_count ≡ g)
    → g + 1 ≤ n
    → Post (MovedInside cpu) (enter_again s (at p g n))
unfolding enter_again
enter_again-Inside cpu s p g n w (o, pos, same) le =
    Post-bind (λ u. Unit) _ (ensure (ltb 0 s.lock_count)) _ (ensure_any _)
      (λ u k.
        Post-bind (λ v. Unit) (MovedInside cpu) (ensure (ltb (s.lock_count + 1) u64_mod)) _
          (ensure_any _) (λ v l. inl (w, ((o, omega arith, ap (λ c. c + 1) same), omega arith))))

owned : (o : Option ℕ) (cpu : ℕ) → o ≡ some cpu → owned_by o cpu ≡ true
unfolding owned_by
owned o cpu e = ap (λ x. owned_by x cpu) e ∙ ==-self cpu

pub inside :
    (weak : Bool) (cpu : ℕ) (s : ReMutex) (p : Place) (g n : ℕ)
    → s.word ≡ write_locked_all
    → Inside s cpu (at p g n)
    → Post (MovedInside cpu) (take_access weak cpu s (at p g n) p)
unfolding take_access stands pop_one write_unlock
inside weak cpu s between g n w i = inl (w, i)
inside weak cpu s check_lock g n w i = rw (owned s.owner_cpu cpu i.0.0) (
    Post-bind (λ u. Unit) (MovedInside cpu) (ensure (ltb 0 n)) _ (ensure_any _)
      (λ u k. enter_again-Inside cpu s check_lock g n w i.0 i.1))
inside weak cpu s want_lock g n w i = absurd i.0
inside weak cpu s spin_lock g n w i = absurd i.0
inside weak cpu s check_try g n w i =
    rw (owned s.owner_cpu cpu i.0.0) (enter_again-Inside cpu s check_try g n w i.0 i.1)
inside weak cpu s want_once g n w i = absurd i.0
inside weak cpu s store_owner g n w i =
    inl (w, ((refl, omega arith, omega (arith, i.0.1)), omega (arith, i.1)))
inside weak cpu s clear_owner g n w i = inl (w, ((refl, i.0.1), i.1))
inside weak cpu s unlock g n w i = rw w (inr (refl, i.0.0, (tt, i.0.1, omega (arith, i.1))))
inside weak cpu s pop_last g n w i =
    Post-bind (λ u. ltb 0 n ≡ true) (MovedInside cpu) (ensure (ltb 0 n)) _ (ensure-Post _)
      (λ u e. inl (w, (i.0, omega (arith, i.1))))

-- The lock is free, or another CPU has it.
abbrev pub Free : ReMutex → ℕ → Type 0
Free s cpu =
    ((s.word ≡ unlocked) × (s.owner_cpu ≡ none))
    ⊎ ((s.word ≡ write_locked_all) × (owned_by s.owner_cpu cpu ≡ false))

not_owned : (s : ReMutex) (cpu : ℕ) → Free s cpu → owned_by s.owner_cpu cpu ≡ false
unfolding owned_by
not_owned s cpu (inl (w, o)) = ap (λ x. owned_by x cpu) o
not_owned s cpu (inr (w, o)) = o

-- The exchange takes the lock where it is free.
exchange :
    (cpu : ℕ) (s : ReMutex) (g n : ℕ) (q : Place)
    → Free s cpu
    → g ≡ 0
    → 1 ≤ n
    → IsOutside q
    → pushed q ≤ n
    → MovedOutside s cpu (
      record s { word = (try_write_lock false s.word).1 },
      record {
        place = if (try_write_lock false s.word).0 then store_owner else q;
        guards = g;
        n_cli = n;
      },
    )
unfolding try_write_lock
exchange cpu s g n q (inl (w, o)) z le out cli =
    rw ((==_iff s.word unlocked).1 w) (inr (w, refl, ((o, z), omega (arith, z))))
exchange cpu s g n q (inr (w, o)) z le out cli =
    rw (==_of_ne s.word unlocked (λ e. omega (arith, w))) (inl (refl, (out, z, cli)))

pub outside :
    (weak : Bool) (cpu : ℕ) (s : ReMutex) (p : Place) (g n : ℕ)
    → Free s cpu
    → Outside (at p g n)
    → Post (MovedOutside s cpu) (take_access weak cpu s (at p g n) p)
unfolding take_access stands pop_one try_write_lock
outside weak cpu s between g n w i = inl (refl, i)
outside weak cpu s check_lock g n w i = rw (not_owned s cpu w) (inl (refl, i))
outside true cpu s want_lock g n w i = inl (refl, i)
outside false cpu s want_lock g n w i =
    exchange cpu s g n spin_lock w i.1 (omega arith) tt (omega arith)
outside weak cpu s spin_lock g n w i = elim (Bool-cases (s.word == unlocked)) [
  | inl e ↦ rw e (inl (refl, i))
  | inr e ↦ rw e (inl (refl, i))
]
outside weak cpu s check_try g n w i = rw (not_owned s cpu w) (inl (refl, i))
outside true cpu s want_once g n w i = inl (refl, (tt, i.1, omega arith))
outside false cpu s want_once g n w i =
    exchange cpu s g n between w i.1 (omega arith) tt (omega arith)
outside weak cpu s store_owner g n w i = absurd i.0
outside weak cpu s clear_owner g n w i = absurd i.0
outside weak cpu s unlock g n w i = absurd i.0
outside weak cpu s pop_last g n w i =
    Post-bind (λ u. ltb 0 n ≡ true) (MovedOutside s cpu) (ensure (ltb 0 n)) _ (ensure-Post _)
      (λ u e. inl (refl, (tt, i.1, omega arith)))

owner_or_none :
    (p : Place) (o : Option ℕ) (count c guards : ℕ)
    → IsInside p o count c guards
    → (o ≡ none) ⊎ (o ≡ some c)
owner_or_none between o count c guards i = inr i.0
owner_or_none check_lock o count c guards i = inr i.0
owner_or_none want_lock o count c guards i = absurd i
owner_or_none spin_lock o count c guards i = absurd i
owner_or_none check_try o count c guards i = inr i.0
owner_or_none want_once o count c guards i = absurd i
owner_or_none store_owner o count c guards i = inl i.0
owner_or_none clear_owner o count c guards i = inr i.0
owner_or_none unlock o count c guards i = inl i.0
owner_or_none pop_last o count c guards i = inr i.0

-- What one CPU has, another does not own.
pub Inside-Free :
    (s : ReMutex) (c cpu : ℕ) (t : CpuThread)
    → s.word ≡ write_locked_all
    → Inside s c t
    → (cpu ≡ c → ⊥)
    → Free s cpu
unfolding owned_by
Inside-Free s c cpu t w i ne = inr (
  w,
  elim (owner_or_none t.place s.owner_cpu s.lock_count c t.guards i.0) [
    | inl e ↦ ap (λ o. owned_by o cpu) e
    | inr e ↦ ap (λ o. owned_by o cpu) e ∙ ==_of_ne c cpu (λ x. ne (sym x))
  ],
)

-- Between the calls, the CPU with the lock counts its guards.
pub Inside-guards :
    (s : ReMutex) (c : ℕ) (t : CpuThread)
    → Inside s c t
    → t.place ≡ between
    → (0 < t.guards) × (s.lock_count ≡ t.guards) × (t.guards ≤ t.n_cli)
Inside-guards s c t i e = (settled.1, settled.2, omega (arith, i.1))
  where
    settled : (s.owner_cpu ≡ some c) × (0 < t.guards) × (s.lock_count ≡ t.guards)
    settled = subst (λ p. IsInside p s.owner_cpu s.lock_count c t.guards) e i.0
