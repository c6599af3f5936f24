-- ===== src/Scheduler/Leaving.antt =====
-- kernel/src/process/scheduler.rs: the calls that take the current process off the processor keep the
-- invariant.
use emerald.Prelude.{
  ℕ, ◌+◌, ◌≤◌, ◌≡◌, refl, sym, ap, ◌∙◌, some, All, Bool, false, Post, Post-map, arith,
}
use mathlib.Core.Path.{subst}
use emerald.Scheduler.Context.{ProcessContext, InterruptAllSavedState, swap_context}
use emerald.Scheduler.Process.{get_mut, remove, exit}
use emerald.Scheduler.State.{
  ProcessState, SchedulerProcess, Scheduler, is_running, is_scheduled, reschedule_process,
}
use emerald.Scheduler.Processor.{System}
use emerald.Scheduler.Calls.{without_current, save_context, push_exited, leave, put_waiting}
use emerald.Scheduler.Census.{same, in_map, in_map-remove, in_map-write}
use emerald.Scheduler.Visits.{IsEntry}
use emerald.Scheduler.Wakes.{live}
use emerald.Scheduler.Entries.{get_mut-IsEntry, remove-entries, write-entries}
use emerald.Scheduler.Invariant.{runs, runs_on, runs-other, IsLists, IsSystem, Left, leave-Left}

abbrev pub idle : ℕ → Bool
idle k = false

-- How often a process occurs changes by those that come and those that go.
abbrev pub Balance : (ℕ → ℕ) → (ℕ → ℕ) → Scheduler → Scheduler → Type 0
Balance comes goes s s' = (n : ℕ) → live n s' + goes n ≡ live n s + comes n

abbrev pub nobody : ℕ → ℕ
nobody n = 0

abbrev pub Kept : (ℕ → ℕ) → (ℕ → ℕ) → System → System → Type 0
Kept comes goes s s' = IsSystem s' × Balance comes goes s.scheduler s'.scheduler

abbrev pub KeptWith : (ℕ → ℕ) → (ℕ → ℕ) → System → System × InterruptAllSavedState → Type 0
KeptWith comes goes s (s', a) = Kept comes goes s s'

-- The lists that the call makes are sound for a processor without a context.
left-KeptWith :
    (goes : ℕ → ℕ) (put : ProcessContext → SchedulerProcess → Scheduler)
    (a : InterruptAllSavedState) (s : System)
    → s.shutdown ≡ false
    → ((context : ProcessContext) (p : SchedulerProcess)
        → get_mut s.cpu.process_id s.scheduler.running_waiting_procs ≡ some p
        → IsLists idle (put context p) × Balance nobody goes s.scheduler (put context p))
    → Post (KeptWith nobody goes s) (leave put a s)
left-KeptWith goes put a s up h =
    Post-map (Left put a s) (KeptWith nobody goes s) (leave put a s) (leave-Left put a s)
      (λ r (before, p, found, lists, off, same_shutdown).
        let context = (swap_context (before, a, s.cpu.fxsave)).0 in
        let (l, b) = h context p found in
        let l' = subst (λ o. IsLists (runs o r.0.cpu.process_id) (put context p)) (sym off) l in
        (
          (subst (IsLists (runs_on r.0.cpu)) (sym lists) l', same_shutdown ∙ up),
          subst (Balance nobody goes s.scheduler) (sym lists) b,
        ))

module _ (s : System) (h : IsSystem s) (p : SchedulerProcess)
    (found : get_mut s.cpu.process_id s.scheduler.running_waiting_procs ≡ some p) where
  pid_of : p.process.id ≡ s.cpu.process_id
  pid_of =
      (get_mut-IsEntry (runs_on s.cpu) s.cpu.process_id p s.scheduler.running_waiting_procs found
        h.0.2).0

  alone : in_map s.cpu.process_id s.scheduler.running_waiting_procs ≤ 1
  alone = omega (arith, h.0.0 s.cpu.process_id)

  removed : All (IsEntry idle) (remove s.cpu.process_id s.scheduler.running_waiting_procs)
  removed =
      remove-entries (runs_on s.cpu) idle s.cpu.process_id p s.scheduler.running_waiting_procs
        (runs-other s.cpu.context s.cpu.process_id) found alone h.0.2

  waiting-IsLists :
      (state : ProcessState) (context : ProcessContext)
      → is_running state ≡ false
      → is_scheduled state ≡ false
      → IsLists idle (put_waiting state s context p)
        × Balance nobody nobody s.scheduler (put_waiting state s context p)
  waiting-IsLists state context r w =
      let p' = record p { process = save_context context p.process; state = state } in
      let m = s.scheduler.running_waiting_procs in
      let c = λ (n : ℕ). in_map-write n s.cpu.process_id p p' m found refl in
      (
        (
          (λ n. omega (arith, h.0.0 n, c n)),
          h.0.1,
          write-entries (runs_on s.cpu) idle s.cpu.process_id p p' m
              (runs-other s.cpu.context s.cpu.process_id) found alone (pid_of, r, w) h.0.2,
        ),
        λ n. omega (arith, c n),
      )

  exited-IsLists :
      (code : ℕ) (context : ProcessContext)
      → IsLists idle (push_exited (exit code (save_context context p.process)) (without_current s))
        × Balance nobody
            (λ n. same n s.cpu.process_id)
            s.scheduler
            (push_exited (exit code (save_context context p.process)) (without_current s))
  exited-IsLists code context =
      let c =
        λ (n : ℕ). in_map-remove n s.cpu.process_id p s.scheduler.running_waiting_procs found in
      (
        ((λ n. omega (arith, h.0.0 n, c n)), h.0.1, removed),
        λ n. omega (arith, c n, ap (same n) pid_of),
      )

  yielded-IsLists :
      (context : ProcessContext)
      → let s' =
          reschedule_process false
            (record p { process = save_context context p.process })
            (without_current s) in
        IsLists idle s' × Balance nobody nobody s.scheduler s'
  unfolding reschedule_process
  yielded-IsLists context =
      let c =
        λ (n : ℕ). in_map-remove n s.cpu.process_id p s.scheduler.running_waiting_procs found in
      (((λ n. omega (arith, h.0.0 n, c n)), (refl, h.0.1), removed), λ n. omega (arith, c n))

abbrev pub current : System → ℕ → ℕ
current s n = same n s.cpu.process_id

pub wait-KeptWith :
    (state : ProcessState) (a : InterruptAllSavedState) (s : System)
    → is_running state ≡ false
    → is_scheduled state ≡ false
    → IsSystem s
    → Post (KeptWith nobody nobody s) (leave (put_waiting state s) a s)
wait-KeptWith state a s r w h =
    left-KeptWith nobody (put_waiting state s) a s h.1
      (λ context p found. waiting-IsLists s h p found state context r w)

pub exit-KeptWith :
    (code : ℕ) (a : InterruptAllSavedState) (s : System)
    → IsSystem s
    → Post (KeptWith nobody (current s) s) (
        leave
          (λ context p.
            push_exited (exit code (save_context context p.process)) (without_current s))
          a
          s)
exit-KeptWith code a s h =
    left-KeptWith (current s) _ a s h.1 (λ context p found. exited-IsLists s h p found code context)

pub yield-KeptWith :
    (a : InterruptAllSavedState) (s : System)
    → IsSystem s
    → Post (KeptWith nobody nobody s) (
        leave
          (λ context p.
            reschedule_process s.shutdown
              (record p { process = save_context context p.process })
              (without_current s))
          a
          s)
yield-KeptWith a s h = left-KeptWith nobody _ a s h.1 (λ context p found.
    subst
      (λ b.
        let s' =
          reschedule_process b (record p { process = save_context context p.process })
            (without_current s) in
        IsLists idle s' × Balance nobody nobody s.scheduler s')
      (sym h.1) (yielded-IsLists s h p found context))
