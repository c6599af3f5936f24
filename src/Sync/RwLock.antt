-- ===== src/Sync/RwLock.antt =====
-- kernel/src/sync/spin/rwlock.rs: `RwLock`, shared by threads that run interleaved. A step of a thread
-- is one access to the shared words, with the accesses to the thread's own CPU around it.
pub mod Shares
pub mod Access
pub mod Moves
pub mod Invariant
pub mod Exclusion
mod Examples
use emerald.Prelude.{
  ℕ, zero, suc, ◌+◌, ◌-◌, Bool, true, false, Option, none, some, List, [], ◌∷◌, Outcome, ok, panic,
  undefined, ◌>>=◌, ◌==◌, if◌then◌else◌,
}
use emerald.Sync.Lock.{
  unlocked, is_read_lockable, try_read_lock, read_unlock, try_write_lock, write_unlock,
}

-- Where a thread is: the access that it makes next, or `idle`, `reading` and `writing` between calls,
-- without a guard and with one.
pub data Phase : Type 0 where
  idle reading writing : Phase
  want_read spin_read once_read store_no_owner : Phase
  check_write want_write spin_write check_once once_write store_owner : Phase
  clear_owner unlock_write pop_cli_last : Phase

pub data Event : Type 0 where
  -- the calls
  read try_read write try_write : Event
  -- the drop of the guard that the thread holds
  drop_guard : Event
  -- the next access, with whether a weak exchange fails
  next_access : Bool → Event

-- The atomic words; `none` is the owner -1.
pub record Shared : Type 0 where
  pub word : ℕ
  pub owner_cpu : Option ℕ

-- `cli` counts the calls of `push_cli` less those of `pop_cli` that the thread has made.
pub record Thread : Type 0 where
  pub cpu : ℕ
  pub phase : Phase
  pub cli : ℕ

abbrev pub goes_to : Shared → Thread → Phase → Outcome (Shared × Thread)
goes_to s t p = ok (s, record t { phase = p })

abbrev pub push_cli : Thread → Thread
push_cli t = record t { cli = t.cli + 1 }

-- Unbalanced, `pop_cli` panics.
abbrev pub pop_cli : Thread → Outcome Thread
pop_cli t = if t.cli == 0 then panic else ok (record t { cli = t.cli - 1 })

abbrev pub is_owner : Option ℕ → ℕ → Bool
is_owner none cpu = false
is_owner (some owner) cpu = owner == cpu

-- The inner loops of `Lock::read_lock` and `Lock::write_lock`: one load, after which the lock is tried
-- again, or the load is repeated.
abbrev pub spins_read : ℕ → Phase
spins_read word = if is_read_lockable word then want_read else spin_read

abbrev pub spins_write : ℕ → Phase
spins_write word = if word == unlocked then want_write else spin_write

-- The next access of a thread inside a call.
unfoldable pub access : Bool → Shared → Thread → Phase → Outcome (Shared × Thread)
access weak s t idle = ok (s, t)
access weak s t reading = ok (s, t)
access weak s t writing = ok (s, t)
access weak s t want_read =
    let (won, word) = try_read_lock s.word in
    goes_to (record s { word = word }) t (if won then store_no_owner else spin_read)
access weak s t spin_read = goes_to s t (spins_read s.word)
access weak s t once_read =
    let (won, word) = try_read_lock s.word in
    goes_to (record s { word = word }) t (if won then store_no_owner else idle)
access weak s t store_no_owner = goes_to (record s { owner_cpu = none }) t reading
access weak s t check_write = if is_owner s.owner_cpu t.cpu then panic else goes_to s t want_write
access weak s t want_write =
    let (won, word) = try_write_lock weak s.word in
    goes_to (record s { word = word }) t (if won then store_owner else spin_write)
access weak s t spin_write = goes_to s t (spins_write s.word)
access weak s t check_once =
    if is_owner s.owner_cpu t.cpu
    then (pop_cli t >>= λ t'. goes_to s t' idle)
    else goes_to s t once_write
access weak s t once_write =
    let (won, word) = try_write_lock weak s.word in
    if won
    then goes_to (record s { word = word }) t store_owner
    else pop_cli t >>= λ t'. goes_to (record s { word = word }) t' idle
access weak s t store_owner = goes_to (record s { owner_cpu = some t.cpu }) t writing
access weak s t clear_owner = goes_to (record s { owner_cpu = none }) t unlock_write
access weak s t unlock_write =
    write_unlock s.word >>= λ word. goes_to (record s { word = word }) t pop_cli_last
access weak s t pop_cli_last = pop_cli t >>= λ t'. goes_to s t' idle

abbrev pub is_idle : Phase → Bool
is_idle idle = true
is_idle _ = false

abbrev pub is_reading : Phase → Bool
is_reading reading = true
is_reading _ = false

abbrev pub is_writing : Phase → Bool
is_writing writing = true
is_writing _ = false

-- The drop of a read guard, and the assertion that the drop of a write guard begins with.
unfoldable pub start_drop : Shared → Thread → Phase → Outcome (Shared × Thread)
start_drop s t p =
    if is_reading p
    then goes_to (record s { word = read_unlock s.word }) t idle
    else if is_writing p
    then elim (s.owner_cpu) [ none ↦ panic | some _ ↦ goes_to s t clear_owner ]
    else ok (s, t)

-- A call begins only where the thread is in none and has no guard.
unfoldable pub move : Event → Shared → Thread → Phase → Outcome (Shared × Thread)
unfolding access start_drop
move read s t p = if is_idle p then goes_to s t want_read else ok (s, t)
move try_read s t p = if is_idle p then goes_to s t once_read else ok (s, t)
move write s t p = if is_idle p then goes_to s (push_cli t) check_write else ok (s, t)
move try_write s t p = if is_idle p then goes_to s (push_cli t) check_once else ok (s, t)
move drop_guard s t p = start_drop s t p
move (next_access weak) s t p = access weak s t p

-- The thread with a number makes a move; there is no other thread.
unfoldable pub move_at : Event → ℕ → Shared → List Thread → Outcome (Shared × List Thread)
unfolding move
move_at ev i s [] = ok (s, [])
move_at ev zero s (t ∷ ts) = do (s', t') ← move ev s t t.phase; ok (s', t' ∷ ts)
move_at ev (suc i) s (t ∷ ts) = do (s', ts') ← move_at ev i s ts; ok (s', t ∷ ts')

-- A schedule: which thread moves, and how.
unfoldable pub run : List (ℕ × Event) → Shared → List Thread → Outcome (Shared × List Thread)
unfolding move_at
run [] s ts = ok (s, ts)
run ((i, ev) ∷ rest) s ts = do (s', ts') ← move_at ev i s ts; run rest s' ts'

-- `RwLock::new`
pub new : Shared
new = record { word = unlocked; owner_cpu = none }
