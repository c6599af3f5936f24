-- ===== src/Sync/RwLock/Examples.antt =====
-- A schedule of three threads on kernel/src/sync/spin/rwlock.rs, and the theorems at it.
use emerald.Prelude.{ℕ, true, false, ◌≡◌, refl, List, [], ◌∷◌, ◌++◌, some, none, All, ok, panic}
use emerald.Sync.Lock.{try_read_lock, read_unlock, try_write_lock, write_unlock, write_locked_all}
use emerald.Sync.RwLock.{
  idle, reading, writing, spin_write, Event, read, write, drop_guard, next_access, Shared, Thread,
  move_at, move, access, start_drop, run, new,
}
use emerald.Sync.RwLock.Invariant.{IsLocked}
use emerald.Sync.RwLock.Exclusion.{
  Excludes, IsFresh, Answers, new-IsLocked, run-IsLocked, run-Excludes, move_at-Answers,
}

abbrev three_threads : List Thread
three_threads =
    record { cpu = 0; phase = idle; cli = 0 }
    ∷ record { cpu = 1; phase = idle; cli = 0 }
    ∷ record { cpu = 1; phase = idle; cli = 0 }
    ∷ []

abbrev step : Event
step = next_access false

-- Threads 0 and 1 read, and thread 2 waits for them.
abbrev two_readers : List (ℕ × Event)
two_readers =
    (0, read)
    ∷ (1, read)
    ∷ (2, write)
    ∷ (0, step)
    ∷ (1, step)
    ∷ (2, step)
    ∷ (1, step)
    ∷ (2, step)
    ∷ (0, step)
    ∷ (2, step)
    ∷ []

-- Both drop their guards, and thread 2 gets the lock, after an exchange that fails for no reason.
abbrev writer : List (ℕ × Event)
writer =
    (0, drop_guard)
    ∷ (1, drop_guard)
    ∷ (2, step)
    ∷ (2, next_access true)
    ∷ (2, step)
    ∷ (2, step)
    ∷ (2, step)
    ∷ []

abbrev dropped : List (ℕ × Event)
dropped = (2, drop_guard) ∷ (2, step) ∷ (2, step) ∷ (2, step) ∷ []

abbrev waiting : Shared × List Thread
waiting = (
  record { word = 2; owner_cpu = none },
  record { cpu = 0; phase = reading; cli = 0 }
      ∷ record { cpu = 1; phase = reading; cli = 0 }
      ∷ record { cpu = 1; phase = spin_write; cli = 1 }
      ∷ [],
)

abbrev written : Shared × List Thread
written = (
  record { word = write_locked_all; owner_cpu = some 1 },
  record { cpu = 0; phase = idle; cli = 0 }
      ∷ record { cpu = 1; phase = idle; cli = 0 }
      ∷ record { cpu = 1; phase = writing; cli = 1 }
      ∷ [],
)

two_readers-run : run two_readers new three_threads ≡ ok waiting
unfolding run move_at move access start_drop new try_read_lock try_write_lock
two_readers-run = refl

writer-run : run (two_readers ++ writer) new three_threads ≡ ok written
unfolding run move_at move access start_drop new try_read_lock try_write_lock read_unlock
writer-run = refl

-- Thread 1 is on the CPU of the writer.
same_cpu-run :
    run (two_readers ++ writer ++ ((1, write) ∷ (1, step) ∷ [])) new three_threads ≡ panic
unfolding run move_at move access start_drop new try_read_lock try_write_lock read_unlock
same_cpu-run = refl

dropped-run : run (two_readers ++ writer ++ dropped) new three_threads ≡ ok (new, three_threads)
unfolding run move_at move access start_drop new try_read_lock try_write_lock read_unlock
    write_unlock
dropped-run = refl

three_threads-IsFresh : All IsFresh three_threads
three_threads-IsFresh = ((refl, refl), ((refl, refl), ((refl, refl), tt)))

written-IsLocked : IsLocked written.0 written.1
written-IsLocked =
    run-IsLocked (two_readers ++ writer) new three_threads written.0 written.1
      (new-IsLocked three_threads three_threads-IsFresh) writer-run

run-Excludes_example : Excludes written.1
run-Excludes_example =
    run-Excludes (two_readers ++ writer) three_threads written.0 written.1 three_threads-IsFresh
      writer-run

move_at-Answers_example : Answers written.0 written.1 2 (move_at drop_guard 2 written.0 written.1)
move_at-Answers_example = move_at-Answers drop_guard 2 written.0 written.1 written-IsLocked
