-- ===== src/Scheduler/Syscalls.antt =====
-- kernel/src/process/syscalls/mod.rs: the system calls on other processes.
use emerald.Prelude.{
  ℕ, ◌≡◌, refl, ap, ◌∙◌, inl, inr, Option, none, some, List, [], ◌∷◌, Bool, true, false, Outcome,
  ok, panic, ◌>>=◌, bind-ok, Result, success, failure, ◌==◌, if◌then◌else◌,
}
use emerald.Scheduler.Context.{InterruptAllSavedState}
use emerald.Scheduler.Process.{Process, Map, get_mut, write, to_u64, from_u64, get_child_exit}
use emerald.Scheduler.State.{SchedulerProcess, Scheduler, is_running}
use emerald.Scheduler.Wake.{sign_extend}
use emerald.Scheduler.Processor.{System}
use emerald.Scheduler.Calls.{get_current, is_process_running, wait_for_pid}
use emerald.Scheduler.Census.{found}
use emerald.Scheduler.Tables.{IsOrdered, get_mut-remove}
use emerald.Scheduler.Switch.{get_current-some}

pub data SyscallError : Type 0 where
  process_still_running pid_not_found invalid_argument : SyscallError

-- `with_current_process` with a change of the process.
abbrev pub write_current : SchedulerProcess → Process → System → System
write_current p process s = record s {
  scheduler = record s.scheduler {
    running_waiting_procs =
        write s.cpu.process_id (record p { process = process }) s.scheduler.running_waiting_procs;
  };
}

-- `wait_for_pid` leaves its result to the scheduler.
abbrev pub wait_result :
    System × InterruptAllSavedState × Bool → System × InterruptAllSavedState × Result SyscallError ℕ
wait_result (s, a, true) = (s, a, success 0)
wait_result (s, a, false) = (s, a, failure pid_not_found)

abbrev pub not_blocking : ℕ → Scheduler → Result SyscallError ℕ
not_blocking pid s =
    failure (if is_process_running pid s then process_still_running else pid_not_found)

unfoldable pub sys_wait_pid :
    ℕ
    → Bool
    → InterruptAllSavedState
    → System
    → Outcome (System × InterruptAllSavedState × Result SyscallError ℕ)
unfolding wait_for_pid
sys_wait_pid pid block a s = do
  p ← get_current s
  let taken = get_child_exit pid p.process
  let s' = write_current p taken.1 s
  elim (taken.0) [
    | some code ↦ ok (s', a, success (sign_extend code))
    | none ↦
        if block
        then (wait_for_pid pid a s' >>= λ r. ok (wait_result r))
        else ok (s', a, not_blocking pid s'.scheduler)
  ]

-- `with_process`, where the process is scheduled.
abbrev pub write_heap :
    ℕ → (Process → Process) → List SchedulerProcess → Option (Process × List SchedulerProcess)
write_heap pid f [] = none
write_heap pid f (p ∷ ps) =
    let rest = write_heap pid f ps in
    if p.process.id == pid
    then some (f p.process, record p { process = f p.process } ∷ ps)
    else elim rest [ none ↦ none | some (q, qs) ↦ some (q, p ∷ qs) ]

unfoldable pub with_process : ℕ → (Process → Process) → Scheduler → Outcome (Process × Scheduler)
with_process pid f s = elim (get_mut pid s.running_waiting_procs) [
  | some p ↦ ok (
    f p.process,
    record s {
      running_waiting_procs =
          write pid (record p { process = f p.process }) s.running_waiting_procs;
    },
  )
  | none ↦ elim (write_heap pid f s.scheduled_processes) [
    | none ↦ panic
    | some (q, ps) ↦ ok (q, record s { scheduled_processes = ps })
  ]
]

-- A level of 0 only asks for the priority.
unfoldable pub sys_priority : ℕ → ℕ → Scheduler → Outcome (Result SyscallError ℕ × Scheduler)
unfolding with_process from_u64
sys_priority pid level s =
    if level == 0
    then (with_process pid (λ p. p) s >>= λ r. ok (success (to_u64 r.0.priority), r.1))
    else elim (from_u64 level) [
      | none ↦ ok (failure invalid_argument, s)
      | some l ↦ with_process pid (λ p. record p { priority = l }) s >>= λ r.
          ok (success (to_u64 r.0.priority), r.1)
    ]

get_mut-write :
    (k : ℕ) (p p' : SchedulerProcess) (m : Map SchedulerProcess)
    → get_mut k m ≡ some p
    → get_mut k (write k p' m) ≡ some p'
get_mut-write k p p' [] e = cc e
get_mut-write k p p' ((j, q) ∷ m) e = elim (found k j p q m e) [
  | inl (at, same) ↦ rw (at, at) refl
  | inr (ne, e') ↦ rw (ne, ne) (get_mut-write k p p' m e')
]

-- Where the current process runs, with its exits in order, and the exit code of `pid` is already
-- stored among them, `sys_wait_pid` returns the code, as a `u64`, whether it may block or not, and
-- takes it out: a second call by the same process, with nothing between the two, that may not block
-- answers that the process still runs, or that there is none. Nothing is said of a call that blocks.
pub sys_wait_pid-sys_wait_pid :
    (pid code : ℕ) (block : Bool) (a : InterruptAllSavedState) (s : System) (p : SchedulerProcess)
    → get_mut s.cpu.process_id s.scheduler.running_waiting_procs ≡ some p
    → is_running p.state ≡ true
    → IsOrdered p.process.children_exits
    → get_mut pid p.process.children_exits ≡ some code
    → (s' : System) × (s'' : System) × (sys_wait_pid pid block a s
        ≡ ok (s', a, success (sign_extend code)))
      × (sys_wait_pid pid false a s' ≡ ok (s'', a, not_blocking pid s''.scheduler))
unfolding sys_wait_pid
sys_wait_pid-sys_wait_pid pid code block a s p there r ordered exited =
    let taken = get_child_exit pid p.process in
    let p' = record p { process = taken.1 } in
    let s' = write_current p taken.1 s in
    let s'' = write_current p' (get_child_exit pid taken.1).1 s' in
    let there' = get_mut-write s.cpu.process_id p p' s.scheduler.running_waiting_procs there in
    (
      s',
      s'',
      bind-ok (get_current s) p _ (get_current-some s p there r)
          ∙ ap
              (λ o. elim o [
                | some code ↦ ok (s', a, success (sign_extend code))
                | none ↦
                    if block
                    then (wait_for_pid pid a s' >>= λ r. ok (wait_result r))
                    else ok (s', a, not_blocking pid s'.scheduler)
              ])
              exited,
      bind-ok (get_current s') p' _ (get_current-some s' p' there' r)
          ∙ ap
              (λ o. elim o [
                | some code ↦ ok (s'', a, success (sign_extend code))
                | none ↦ ok (s'', a, not_blocking pid s''.scheduler)
              ])
              (get_mut-remove pid p.process.children_exits ordered),
    )
