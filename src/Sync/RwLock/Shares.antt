-- ===== src/Sync/RwLock/Shares.antt =====
-- kernel/src/sync/spin/rwlock.rs: what the words of the lock say about one thread, and the atomic
-- operations under that.
use emerald.Prelude.{
  ℕ, ◌+◌, ◌≤◌, ◌<◌, ◌≡◌, refl, ap, true, false, Option, none, some, List, [], ◌∷◌, arith, Outcome,
  ok, panic, undefined, ◌==◌, ==_iff,
}
use emerald.Sync.Lock.{
  unlocked, is_read_lockable, try_read_lock, read_unlock, try_write_lock, write_unlock,
  write_locked_all,
}
use emerald.Sync.RwLock.{
  Phase, reading, writing, store_no_owner, check_write, want_write, spin_write, check_once,
  once_write, store_owner, clear_owner, unlock_write, pop_cli_last, Shared, Thread, is_owner,
}

-- What a thread has added to the word.
abbrev pub share : Phase → ℕ
share reading = 1
share store_no_owner = 1
share store_owner = write_locked_all
share writing = write_locked_all
share clear_owner = write_locked_all
share unlock_write = write_locked_all
share _ = 0

abbrev pub shares : List Thread → ℕ
shares [] = 0
shares (t ∷ ts) = share t.phase + shares ts

-- Whether the thread's CPU is stored as the owner.
abbrev pub owns : Phase → ℕ → Option ℕ
owns writing cpu = some cpu
owns clear_owner cpu = some cpu
owns _ cpu = none

abbrev pub either : Option ℕ → Option ℕ → Option ℕ
either none o = o
either (some c) o = some c

abbrev pub owner_of : List Thread → Option ℕ
owner_of [] = none
owner_of (t ∷ ts) = either (owns t.phase t.cpu) (owner_of ts)

-- Interrupts are kept off from the check of the owner to the end of the call that drops the guard.
abbrev pub pushes : Phase → ℕ
pushes check_write = 1
pushes want_write = 1
pushes spin_write = 1
pushes check_once = 1
pushes once_write = 1
pushes store_owner = 1
pushes writing = 1
pushes clear_owner = 1
pushes unlock_write = 1
pushes pop_cli_last = 1
pushes _ = 0

-- The words, seen from one thread: the others have `rest` in the word, and `other` as the owner.
pub record Fits (rest : ℕ) (other : Option ℕ) (word : ℕ) (owner : Option ℕ) (cpu : ℕ) (p : Phase)
    (cli : ℕ) : Type 0 where
  pub sum : word ≡ rest + share p
  pub bound : word ≤ write_locked_all
  pub owned : owner ≡ either other (owns p cpu)
  pub alone : rest < write_locked_all → other ≡ none
  pub balanced : cli ≡ pushes p

abbrev pub ThreadFits : ℕ → Option ℕ → Shared → Thread → Type 0
ThreadFits rest other s t = Fits rest other s.word s.owner_cpu t.cpu t.phase t.cli

-- A move that returns keeps the fit, and the thread its CPU; a move panics only at the test of
-- `write` that finds the thread's own CPU.
abbrev pub Moved : ℕ → Option ℕ → Shared → ℕ → Phase → Outcome (Shared × Thread) → Type 0
Moved rest other s cpu p (ok (s', t')) = ThreadFits rest other s' t' × (t'.cpu ≡ cpu)
Moved rest other s cpu p panic = (p ≡ check_write) × (s.owner_cpu ≡ some cpu)
Moved rest other s cpu p undefined = ⊥

pub try_read-won :
    (word : ℕ)
    → word ≤ write_locked_all
    → is_read_lockable word ≡ true
    → try_read_lock word ≡ (true, word + 1)
unfolding try_read_lock
try_read-won word h free = ground (arith, free)

pub lockable-lt :
    (word : ℕ)
    → word ≤ write_locked_all
    → is_read_lockable word ≡ true
    → word + 1 ≤ write_locked_all
lockable-lt word h free = ground (arith, free)

pub try_read-lost : (word : ℕ) → is_read_lockable word ≡ false → try_read_lock word ≡ (false, word)
unfolding try_read_lock
try_read-lost word busy = ground (arith, busy)

pub try_write-won :
    (word : ℕ) → (word == unlocked) ≡ true → try_write_lock false word ≡ (true, write_locked_all)
unfolding try_write_lock
try_write-won word free = ground (arith, free)

pub try_write-lost :
    (word : ℕ) → (word == unlocked) ≡ false → try_write_lock false word ≡ (false, word)
unfolding try_write_lock
try_write-lost word busy = ground (arith, busy)

pub read_unlock-eq :
    (word rest : ℕ) → word ≤ write_locked_all → word ≡ rest + 1 → read_unlock word ≡ rest
unfolding read_unlock
read_unlock-eq word rest h e = omega (arith, h, e)

pub write_unlock-eq : (word : ℕ) → word ≡ write_locked_all → write_unlock word ≡ ok 0
unfolding write_unlock
write_unlock-eq word e = rw e refl

pub is_owner-eq : (owner : Option ℕ) (cpu : ℕ) → is_owner owner cpu ≡ true → owner ≡ some cpu
is_owner-eq none cpu h = cc h
is_owner-eq (some c) cpu h = ap some ((==_iff c cpu).0 h)
