-- ===== src/Sync/ReMutex/Examples.antt =====
-- Tests of kernel/src/sync/spin/remutex.rs, and an input at which its theorem applies.
use emerald.Prelude.{Outcome, ◌>>=◌, ℕ, ◌≡◌, refl, false, some, List, [], ◌∷◌, ok, Post, ◌>>=◌}
use emerald.Sync.Lock.{write_locked_all, try_write_lock}
use emerald.Sync.ReMutex.{
  ReMutex, CpuThread, between, Move, lock, try_lock, go_on, run_moves, new_remutex, fresh_cpus,
}
use emerald.Sync.ReMutex.Exclusion.{ReExcludes, run_moves-ReExcludes}

-- CPU 0 enters twice, and CPU 1 tries.
abbrev contended : List (ℕ × Move)
contended =
    (0, lock)
    ∷ (0, go_on false)
    ∷ (0, go_on false)
    ∷ (0, go_on false)
    ∷ (0, lock)
    ∷ (0, go_on false)
    ∷ (1, try_lock)
    ∷ (1, go_on false)
    ∷ (1, go_on false)
    ∷ []

abbrev both : Outcome (ReMutex × (ℕ → CpuThread)) → Outcome (ReMutex × CpuThread × CpuThread)
both o = do (s, cpus) ← o; ok (s, cpus 0, cpus 1)

-- The try has failed, and the CPU is left with its interrupts off.
contended_run :
    both (run_moves contended new_remutex fresh_cpus)
    ≡ ok (
      record { word = write_locked_all; owner_cpu = some 0; lock_count = 2 },
      record { place = between; guards = 2; n_cli = 2 },
      record { place = between; guards = 0; n_cli = 1 },
    )
unfolding run_moves new_remutex try_write_lock
contended_run = refl

run_moves-ReExcludes_example : Post ReExcludes (run_moves contended new_remutex fresh_cpus)
run_moves-ReExcludes_example = run_moves-ReExcludes contended
