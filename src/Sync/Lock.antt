-- ===== src/Sync/Lock.antt =====
-- kernel/src/sync/spin/lock.rs: the word of `Lock`, and its atomic operations on it.
use emerald.Prelude.{
  ℕ, ◌+◌, ◌-◌, ◌%◌, Bool, true, false, Outcome, ok, panic, ◌==◌, ltb, leb, if◌then◌else◌,
}
use emerald.Prelude.Words.{u64_mod}

abbrev pub unlocked : ℕ
unlocked = 0

abbrev pub read_locked_one : ℕ
read_locked_one = 1

-- `MASK`, `(1 << 30) - 1`
abbrev pub write_locked_all : ℕ
write_locked_all = 1073741823

abbrev pub max_readers : ℕ
max_readers = write_locked_all - 1

-- `state & MASK < MAX_READERS`
abbrev pub is_read_lockable : ℕ → Bool
is_read_lockable state = ltb (state % 1073741824) max_readers

unfoldable pub try_read_lock : ℕ → Bool × ℕ
try_read_lock state =
    if is_read_lockable state then (true, (state + read_locked_one) % u64_mod) else (false, state)

unfoldable pub read_unlock : ℕ → ℕ
read_unlock state = (state + u64_mod - read_locked_one) % u64_mod

-- `weak`: the exchange fails although the lock is free, which `compare_exchange_weak` may do.
unfoldable pub try_write_lock : Bool → ℕ → Bool × ℕ
try_write_lock true state = (false, state)
try_write_lock false state = if state == unlocked then (true, write_locked_all) else (false, state)

-- `fetch_sub(WRITE_LOCKED) - WRITE_LOCKED` panics where it would be negative, and the assertion
-- where it is positive.
unfoldable pub write_unlock : ℕ → Outcome ℕ
write_unlock state =
    if leb write_locked_all state
    then if state - write_locked_all == unlocked then ok unlocked else panic
    else panic
