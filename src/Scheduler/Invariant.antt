-- ===== src/Scheduler/Invariant.antt =====
-- kernel/src/process/scheduler.rs: what holds of the scheduler and the processor at any time.
use emerald.Prelude.{
  ℕ, ◌-◌, ◌≤◌, ◌≡◌, refl, sym, ap, inl, inr, Option, none, some, All, Bool, true, false, not, ok,
  panic, ◌>>=◌, ◌>>◌, ensure, Post, Post-bind, ensure-Post, ltb, ◌==◌, Bool-cases,
}
use emerald.Prelude.Words.{u64_mod}
use emerald.Scheduler.Context.{ProcessContext, InterruptAllSavedState, swap_context}
use emerald.Scheduler.Process.{get_mut}
use emerald.Scheduler.State.{SchedulerProcess, Scheduler, is_running}
use emerald.Scheduler.Processor.{Cpu, System, push_cli, pop_cli}
use emerald.Scheduler.Calls.{get_current, leave, swap_with}
use emerald.Scheduler.Visits.{IsEntry}
use emerald.Scheduler.Wakes.{IsScheduled, live}
use emerald.Scheduler.Entries.{Agree}

-- Whether the processor runs the process with a key.
abbrev pub runs : Option ProcessContext → ℕ → ℕ → Bool
runs none pid k = false
runs (some context) pid k = pid == k

abbrev pub runs_on : Cpu → ℕ → Bool
runs_on c = runs c.context c.process_id

abbrev pub IsLists : (ℕ → Bool) → Scheduler → Type 0
IsLists runs s =
    ((n : ℕ) → live n s ≤ 1)
    × All IsScheduled s.scheduled_processes
    × All (IsEntry runs) s.running_waiting_procs

-- No process is in two places, the heap has the scheduled ones, an entry runs exactly where the
-- processor has its context, and no shutdown has begun.
abbrev pub IsSystem : System → Type 0
IsSystem s = IsLists (runs_on s.cpu) s.scheduler × (s.shutdown ≡ false)

pub runs-other : (c : Option ProcessContext) (pid : ℕ) → Agree pid (runs c pid) (runs none pid)
runs-other none pid j ne = refl
runs-other (some context) pid j ne = sym ne

-- A call takes the process away from the processor, and leaves it to `put`, with the registers that
-- the interrupt saved; the registers of the processor's context are those that it returns to.
abbrev pub Left :
    (ProcessContext → SchedulerProcess → Scheduler)
    → InterruptAllSavedState
    → System
    → System × InterruptAllSavedState
    → Type 0
Left put a s (s', a') =
    (before : ProcessContext) × (p : SchedulerProcess) × (get_mut s.cpu.process_id
        s.scheduler.running_waiting_procs
      ≡ some p)
    × (s'.scheduler ≡ put (swap_context (before, a, s.cpu.fxsave)).0 p)
    × (s'.cpu.context ≡ none)
    × (s'.shutdown ≡ s.shutdown)

abbrev pub SameCpu : Cpu → Cpu → Type 0
SameCpu c c' = (c'.context ≡ c.context) × (c'.process_id ≡ c.process_id) × (c'.fxsave ≡ c.fxsave)

pub push_cli-SameCpu : (c : Cpu) → Post (SameCpu c) (push_cli c)
unfolding push_cli
push_cli-SameCpu c =
    Post-bind _ (SameCpu c) (ensure (ltb c.n_cli (u64_mod - 1))) _ (ensure-Post _) (λ u e.
      elim (Bool-cases (c.n_cli == 0)) [
        | inl z ↦ rw z (refl, refl, refl)
        | inr z ↦ rw z (
            Post-bind _ (SameCpu c) (ensure (not c.interrupts)) _ (ensure-Post (not c.interrupts))
              (λ u e. (refl, refl, refl)))
      ])

pub pop_cli-SameCpu : (c : Cpu) → Post (SameCpu c) (pop_cli c)
unfolding pop_cli
pop_cli-SameCpu c = go (ltb 0 c.n_cli) (not c.interrupts) _ (refl, refl, refl)
  where
    go : (x y : Bool) (c' : Cpu) → SameCpu c c' → Post (SameCpu c) (ensure x >> ensure y >> ok c')
    go true true c' h = h
    go true false c' h = tt
    go false y c' h = tt

get_current-Post :
    (s : System)
    → Post
        (λ p. get_mut s.cpu.process_id s.scheduler.running_waiting_procs ≡ some p)
        (get_current s)
get_current-Post s = by_entry (get_mut s.cpu.process_id s.scheduler.running_waiting_procs)
  where
    by_entry :
        (o : Option SchedulerProcess)
        → Post
            (λ p. o ≡ some p)
            (elim o [ none ↦ panic | some p ↦ ensure (is_running p.state) >> ok p ])
    by_entry none = tt
    by_entry (some p) =
        Post-bind _ _ (ensure (is_running p.state)) _ (ensure-Post (is_running p.state))
          (λ u e. refl)

pub leave-Left :
    (put : ProcessContext → SchedulerProcess → Scheduler) (a : InterruptAllSavedState) (s : System)
    → Post (Left put a s) (leave put a s)
unfolding leave
leave-Left put a s =
    Post-bind (SameCpu s.cpu) (Left put a s) (push_cli s.cpu) _ (push_cli-SameCpu s.cpu)
      (λ c same_cpu.
        Post-bind (λ p. get_mut s.cpu.process_id s.scheduler.running_waiting_procs ≡ some p)
          (Left put a s) (get_current s) _ (get_current-Post s)
          (λ p e. swapped c p e same_cpu c.context))
  where
    swapped :
        (c : Cpu) (p : SchedulerProcess)
        → get_mut s.cpu.process_id s.scheduler.running_waiting_procs ≡ some p
        → SameCpu s.cpu c
        → (o : Option ProcessContext)
        → Post (Left put a s) (
            swap_with o c a >>= λ swapped. pop_cli (record swapped.1 { context = none }) >>= λ c'.
            ok (record s { scheduler = put swapped.0 p; cpu = c' }, swapped.2))
    swapped c p e same_cpu none = tt
    swapped c p e (x, y, z) (some before) =
        let swapped = swap_context (before, a, c.fxsave) in
        let c' = record c { fxsave = swapped.2; context = none } in
        Post-bind (SameCpu c') (Left put a s) (pop_cli c') _ (pop_cli-SameCpu c')
          (λ c'' (x', y', z').
            (before, p, e, ap (λ fx. put (swap_context (before, a, fx)).0 p) z, x', refl))
