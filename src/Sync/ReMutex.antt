-- ===== src/Sync/ReMutex.antt =====
-- kernel/src/sync/spin/remutex.rs: `ReMutex`, shared by the CPUs. A step is one access to the words
-- that are shared, with the accesses to the CPU's own state around it; `lock_count` is only used by
-- the CPU that owns the lock, and goes along with the access beside it. As interrupts are off from
-- `push_cli` on, one thread at a time uses the lock on each CPU.
mod Invariant
mod Calls
mod Exclusion
mod Examples
use emerald.Prelude.{
  ℕ, ◌+◌, ◌-◌, Bool, true, false, Option, none, some, List, [], ◌∷◌, Outcome, ok, panic, ◌>>=◌,
  ◌>>◌, ensure, ◌==◌, ltb, if◌then◌else◌,
}
use emerald.Prelude.Words.{u64_mod}
use emerald.Sync.Lock.{unlocked, try_write_lock, write_unlock}

-- Where a CPU is: between the calls, or at the access that it makes next.
pub data Place : Type 0 where
  between check_lock want_lock spin_lock check_try want_once : Place
  store_owner clear_owner unlock pop_last : Place

pub data Move : Type 0 where
  -- the calls, and the drop of a guard
  lock try_lock drop_one : Move
  -- the next access, with whether a weak exchange fails
  go_on : Bool → Move

pub record ReMutex : Type 0 where
  pub word : ℕ
  pub owner_cpu : Option ℕ
  pub lock_count : ℕ

-- `guards` are those that live on the CPU, and `n_cli` counts its calls of `push_cli` less those of
-- `pop_cli`.
pub record CpuThread : Type 0 where
  pub place : Place
  pub guards : ℕ
  pub n_cli : ℕ

unfoldable pub stands : ReMutex → CpuThread → Place → Outcome (ReMutex × CpuThread)
stands s t p = ok (s, record t { place = p })

unfoldable pub owned_by : Option ℕ → ℕ → Bool
owned_by none cpu = false
owned_by (some owner) cpu = owner == cpu

-- The lock is entered again by the CPU that owns it.
unfoldable pub enter_again : ReMutex → CpuThread → Outcome (ReMutex × CpuThread)
enter_again s t = do
  ensure (ltb 0 s.lock_count)
  ensure (ltb (s.lock_count + 1) u64_mod)
  ok (
    record s { lock_count = s.lock_count + 1 },
    record t { place = between; guards = t.guards + 1 },
  )

unfoldable pub pop_one : ReMutex → CpuThread → Outcome (ReMutex × CpuThread)
pop_one s t = ensure (ltb 0 t.n_cli) >> ok (s, record t { place = between; n_cli = t.n_cli - 1 })

-- The next access of the CPU inside a call.
unfoldable pub take_access : Bool → ℕ → ReMutex → CpuThread → Place → Outcome (ReMutex × CpuThread)
unfolding stands owned_by enter_again pop_one
take_access weak cpu s t between = ok (s, t)
take_access weak cpu s t check_lock =
    if owned_by s.owner_cpu cpu
    then (ensure (ltb 0 t.n_cli) >> enter_again s t)
    else stands s t want_lock
take_access weak cpu s t want_lock =
    let (won, word) = try_write_lock weak s.word in
    stands (record s { word = word }) t (if won then store_owner else spin_lock)
take_access weak cpu s t spin_lock =
    stands s t (if s.word == unlocked then want_lock else spin_lock)
take_access weak cpu s t check_try =
    if owned_by s.owner_cpu cpu then enter_again s t else stands s t want_once
take_access weak cpu s t want_once =
    let (won, word) = try_write_lock weak s.word in
    stands (record s { word = word }) t (if won then store_owner else between)
take_access weak cpu s t store_owner = ok (
  record s { owner_cpu = some cpu; lock_count = 1 },
  record t { place = between; guards = t.guards + 1 },
)
take_access weak cpu s t clear_owner = stands (record s { owner_cpu = none }) t unlock
take_access weak cpu s t unlock =
    write_unlock s.word >>= λ word. stands (record s { word = word }) t pop_last
take_access weak cpu s t pop_last = pop_one s t

-- The drop of a guard: the last one gives the lock back.
unfoldable pub drop_guard_of : ReMutex → CpuThread → Outcome (ReMutex × CpuThread)
drop_guard_of s t = do
  ensure (ltb 0 s.lock_count)
  let count = s.lock_count - 1
  ok (
    record s { lock_count = count },
    record t { place = if count == 0 then clear_owner else pop_last; guards = t.guards - 1 },
  )

unfoldable pub is_between : Place → Bool
is_between between = true
is_between _ = false

-- A call, and the drop of a guard where there is one.
unfoldable pub begin : Move → ReMutex → CpuThread → Outcome (ReMutex × CpuThread)
unfolding drop_guard_of
begin lock s t = ok (s, record t { place = check_lock; n_cli = t.n_cli + 1 })
begin try_lock s t = ok (s, record t { place = check_try; n_cli = t.n_cli + 1 })
begin drop_one s t = if ltb 0 t.guards then drop_guard_of s t else ok (s, t)
begin (go_on weak) s t = ok (s, t)

-- A call begins only between the calls.
unfoldable pub make_move : Move → ℕ → ReMutex → CpuThread → Outcome (ReMutex × CpuThread)
unfolding take_access begin is_between
make_move (go_on weak) cpu s t = take_access weak cpu s t t.place
make_move m cpu s t = if is_between t.place then begin m s t else ok (s, t)

-- The CPUs, by their identities, and a schedule: which CPU moves, and how.
unfoldable pub run_moves :
    List (ℕ × Move) → ReMutex → (ℕ → CpuThread) → Outcome (ReMutex × (ℕ → CpuThread))
unfolding make_move
run_moves [] s cpus = ok (s, cpus)
run_moves ((cpu, move) ∷ rest) s cpus = do
  (s', t) ← make_move move cpu s (cpus cpu)
  run_moves rest s' (λ i. if i == cpu then t else cpus i)

unfoldable pub new_remutex : ReMutex
new_remutex = record { word = unlocked; owner_cpu = none; lock_count = 0 }

abbrev pub fresh_cpus : ℕ → CpuThread
fresh_cpus cpu = record { place = between; guards = 0; n_cli = 0 }
