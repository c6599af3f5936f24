-- ===== src/Sync/RwLock/Exclusion.antt =====
-- kernel/src/sync/spin/rwlock.rs: what every schedule of threads on one lock keeps.
use emerald.Prelude.{
  ℕ, zero, suc, ◌+◌, ◌*◌, ◌≤◌, ◌≡◌, ◌⊎◌, inl, inr, refl, sym, ap, ◌∙◌, none, some, List, [], ◌∷◌,
  arith, All, Outcome, ok, panic, undefined, ◌>>=◌, get_elem?,
}
use mathlib.Core.Path.{subst}
use emerald.Sync.Lock.{write_locked_all}
use emerald.Sync.RwLock.{
  Phase, idle, reading, writing, check_write, clear_owner, Event, Shared, Thread, move_at, run, new,
}
use emerald.Sync.RwLock.Shares.{share, shares, owns, either, owner_of, pushes}
use emerald.Sync.RwLock.Invariant.{Balanced, IsLocked, AllMoved, move_at-AllMoved}

-- Threads that hold a guard for reading, and for writing.
abbrev pub readers : List Thread → ℕ
readers [] = 0
readers (t ∷ ts) = elim (t.phase) [ reading ↦ 1 | _ ↦ 0 ] + readers ts

abbrev pub writers : List Thread → ℕ
writers [] = 0
writers (t ∷ ts) = elim (t.phase) [ writing ↦ 1 | _ ↦ 0 ] + writers ts

abbrev pub Excludes : List Thread → Type 0
Excludes ts = (writers ts ≡ 0) ⊎ ((writers ts ≡ 1) × (readers ts ≡ 0))

-- A thread that has made no call.
abbrev pub IsFresh : Thread → Type 0
IsFresh t = (t.phase ≡ idle) × (t.cli ≡ 0)

guards-le :
    (p : Phase)
    → elim p [ reading ↦ 1 | _ ↦ 0 ] + write_locked_all * elim p [ writing ↦ 1 | _ ↦ 0 ] ≤ share p
guards-le reading = omega arith
guards-le writing = omega arith
guards-le _ = omega arith

shares-le : (ts : List Thread) → readers ts + write_locked_all * writers ts ≤ shares ts
shares-le [] = omega arith
shares-le (t ∷ ts) = omega (arith, guards-le t.phase, shares-le ts)

IsLocked-Excludes : (s : Shared) (ts : List Thread) → IsLocked s ts → Excludes ts
IsLocked-Excludes s ts f =
    few (readers ts) (writers ts) (omega (arith, shares-le ts, f.sum, f.bound))
  where
    few : (r w : ℕ) → r + write_locked_all * w ≤ write_locked_all → (w ≡ 0) ⊎ ((w ≡ 1) × (r ≡ 0))
    few r zero h = inl refl
    few r (suc zero) h = inr (refl, omega (arith, h))
    few r (suc (suc w)) h = absurd (omega (arith, h))

Fresh-shares :
    (ts : List Thread) → All IsFresh ts → (shares ts ≡ 0) × (owner_of ts ≡ none) × All Balanced ts
Fresh-shares [] h = (refl, refl, tt)
Fresh-shares (t ∷ ts) ((at, cli), h) =
    let (a, b, c) = Fresh-shares ts h in
    (rw (at, a) refl, rw (at, b) refl, (cli ∙ sym (ap pushes at), c))

pub new-IsLocked : (ts : List Thread) → All IsFresh ts → IsLocked new ts
unfolding new
new-IsLocked ts h =
    let (a, b, c) = Fresh-shares ts h in
    record {
      sum = omega (arith, a);
      bound = omega arith;
      owned = sym b;
      alone = λ _. refl;
      balanced = c;
    }

pub run-IsLocked :
    (sched : List (ℕ × Event)) (s : Shared) (ts : List Thread) (s' : Shared) (ts' : List Thread)
    → IsLocked s ts
    → run sched s ts ≡ ok (s', ts')
    → IsLocked s' ts'
unfolding run
run-IsLocked [] s ts s' ts' f e =
    let same : s ≡ s' = cc e in
    let sames : ts ≡ ts' = cc e in subst (λ u. IsLocked u ts') same (subst (IsLocked s) sames f)
run-IsLocked ((i, ev) ∷ rest) s ts s' ts' f e =
    go (λ s₁ ts₁. run-IsLocked rest s₁ ts₁ s' ts') (move_at ev i s ts)
      (move_at-AllMoved ev i 0 none s ts f) e
  where
    go :
        ((s₁ : Shared) (ts₁ : List Thread)
          → IsLocked s₁ ts₁
          → run rest s₁ ts₁ ≡ ok (s', ts')
          → IsLocked s' ts')
        → (o : Outcome (Shared × List Thread)) → AllMoved 0 none s ts i o
        → (o >>= λ r. run rest r.0 r.1) ≡ ok (s', ts')
        → IsLocked s' ts'
    go again (ok (s₁, ts₁)) g e₁ = again s₁ ts₁ g e₁
    go again panic g e₁ = cc e₁
    go again undefined g e₁ = absurd g

-- From a new lock and threads that have made no call, in every state that a schedule of reads, writes,
-- tries and drops comes to, at most one thread holds a guard for writing, and then none holds one for
-- reading.
pub run-Excludes :
    (sched : List (ℕ × Event)) (ts : List Thread) (s' : Shared) (ts' : List Thread)
    → All IsFresh ts
    → run sched new ts ≡ ok (s', ts')
    → Excludes ts'
run-Excludes sched ts s' ts' h e =
    IsLocked-Excludes s' ts' (run-IsLocked sched new ts s' ts' (new-IsLocked ts h) e)

abbrev pub IsIdle : Thread → Type 0
IsIdle t = t.phase ≡ idle

Idle-shares :
    (ts : List Thread)
    → All IsIdle ts
    → All Balanced ts
    → (shares ts ≡ 0) × (owner_of ts ≡ none) × All IsFresh ts
Idle-shares [] h b = (refl, refl, tt)
Idle-shares (t ∷ ts) (at, h) (cli, bs) =
    let (a, b, c) = Idle-shares ts h bs in
    (rw (at, a) refl, rw (at, b) refl, ((at, cli ∙ ap pushes at), c))

-- Once every thread is out of its calls and without a guard again, the words are those of a new lock,
-- and each thread has made as many calls of `pop_cli` as of `push_cli`.
pub run-new :
    (sched : List (ℕ × Event)) (ts : List Thread) (s' : Shared) (ts' : List Thread)
    → All IsFresh ts
    → run sched new ts ≡ ok (s', ts')
    → All IsIdle ts'
    → (s' ≡ new) × All IsFresh ts'
unfolding new
run-new sched ts s' ts' h e idle_lem =
    let f = run-IsLocked sched new ts s' ts' (new-IsLocked ts h) e in
    let (a, b, c) = Idle-shares ts' idle_lem f.balanced in
    let word_lem : s'.word ≡ 0 = omega (arith, f.sum, a) in
    ((λ i. record { word = word_lem i; owner_cpu = (f.owned ∙ b) i }), c)

-- What a move may come to: a state with the invariant, or the panic of a `write` on a CPU on which
-- another thread holds the lock for writing.
abbrev pub Answers : Shared → List Thread → ℕ → Outcome (Shared × List Thread) → Type 0
Answers s ts i (ok (s', ts')) = IsLocked s' ts'
Answers s ts i panic =
    (t : Thread) × (j : ℕ) × (u : Thread) × (get_elem? ts i ≡ some t)
    × (t.phase ≡ check_write)
    × (get_elem? ts j ≡ some u)
    × (u.cpu ≡ t.cpu)
    × ((u.phase ≡ writing) ⊎ (u.phase ≡ clear_owner))
Answers s ts i undefined = ⊥

owns-holds :
    (p : Phase) (cpu : ℕ)
    → (owns p cpu ≡ none) ⊎ ((owns p cpu ≡ some cpu) × ((p ≡ writing) ⊎ (p ≡ clear_owner)))
owns-holds writing cpu = inr (refl, inl refl)
owns-holds clear_owner cpu = inr (refl, inr refl)
owns-holds _ cpu = inl refl

owner-thread :
    (ts : List Thread) (c : ℕ)
    → owner_of ts ≡ some c
    → (j : ℕ) × (u : Thread) × (get_elem? ts j ≡ some u)
      × (u.cpu ≡ c)
      × ((u.phase ≡ writing) ⊎ (u.phase ≡ clear_owner))
owner-thread [] c e = cc e
owner-thread (t ∷ ts) c e = elim (owns-holds t.phase t.cpu) [
  | inl nobody ↦
      let (j, u, there, cpu, holds) =
        owner-thread ts c (sym (ap (λ o. either o (owner_of ts)) nobody) ∙ e) in
      (suc j, u, there, cpu, holds)
  | inr (own, holds) ↦
      let same : some t.cpu ≡ some c = sym (ap (λ o. either o (owner_of ts)) own) ∙ e in
      (0, t, refl, cc same, holds)
]

-- In a state with the invariant, every move of every thread keeps it, or is the panic of a `write`
-- by a thread on whose CPU a thread holds the lock for writing: no other assertion of the lock fails.
pub move_at-Answers :
    (ev : Event) (i : ℕ) (s : Shared) (ts : List Thread)
    → IsLocked s ts
    → Answers s ts i (move_at ev i s ts)
move_at-Answers ev i s ts f = go (move_at ev i s ts) (move_at-AllMoved ev i 0 none s ts f)
  where
    go : (o : Outcome (Shared × List Thread)) → AllMoved 0 none s ts i o → Answers s ts i o
    go (ok (s', ts')) g = g
    go panic (t, at, check, own) =
        let (j, u, there, cpu, holds) = owner-thread ts t.cpu (sym f.owned ∙ own) in
        (t, j, u, at, check, there, cpu, holds)
    go undefined g = g
