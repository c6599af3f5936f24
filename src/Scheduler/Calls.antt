-- ===== src/Scheduler/Calls.antt =====
-- kernel/src/process/scheduler.rs and kernel/src/cpu/mod.rs: the calls of the scheduler, with the
-- processor that they run on. A call that goes back to the kernel or to a process takes the registers
-- that the interrupt saved, and leaves those that it returns to.
use emerald.Prelude.{
  ℕ, ◌-◌, ◌%◌, Option, none, some, List, [], ◌∷◌, ◌++◌, Bool, true, false, not, ◌&&◌, ◌||◌, Outcome,
  ok, panic, ◌>>=◌, ◌>>◌, ensure, leb, ◌==◌, if◌then◌else◌,
}
use emerald.Clock.Rtc.{checked_minus}
use emerald.Clock.Time.{ClockTime, add}
use emerald.Scheduler.Context.{ProcessContext, InterruptAllSavedState, swap_context}
use emerald.Scheduler.Process.{Process, Map, get_mut, insert, write, remove, is_none, to_u64, exit}
use emerald.Scheduler.State.{
  ProcessState, running, waiting_for_pid, waiting_for_time, SchedulerProcess, Scheduler,
  reschedule_process, push_process, exit_idle_processes, is_running, is_scheduled, needs_reset,
  reset_scheduled_processes_counters, pop,
}
use emerald.Scheduler.Wake.{try_wake_waiting_processes}
use emerald.Scheduler.Processor.{Cpu, System, push_cli, pop_cli, is_empty, is_some}

-- The process that `schedule` took off the heap becomes the current one.
unfoldable pub start :
    SchedulerProcess → List SchedulerProcess → Scheduler → Cpu → Outcome (Scheduler × Cpu)
start top heap s c = do
  counter ← checked_minus top.priority_counter (6 - to_u64 top.process.priority)
  ok (
    record s {
      scheduled_processes = heap;
      max_priority = counter;
      running_waiting_procs =
          insert top.process.id (record top { state = running; priority_counter = counter })
            s.running_waiting_procs;
    },
    record c { process_id = top.process.id; context = some top.process.context; scheduling = true },
  )

abbrev pub is_finished : Bool → Scheduler → Cpu → Bool
is_finished shutdown s c =
    shutdown
    && (is_empty s.scheduled_processes && (is_empty s.running_waiting_procs && is_none c.context))

-- What `schedule` does with the top of the heap.
unfoldable pub take_top :
    Option (SchedulerProcess × List SchedulerProcess)
    → Bool
    → Scheduler
    → Cpu
    → Outcome (Scheduler × Cpu)
unfolding start pop_cli
take_top none shutdown s c = ok (s, c)
take_top (some (top, heap)) true s c = do
  ensure (is_scheduled top.state)
  c' ← pop_cli c
  ok (record s { scheduled_processes = heap }, c')
take_top (some (top, heap)) false s c = do
  ensure (is_scheduled top.state)
  started ← start top heap s c
  c' ← pop_cli started.1
  ok (started.0, c')

-- One pass of the loop of `schedule`, up to the interrupt or the halt, and whether the loop ends.
unfoldable pub schedule_once :
    ClockTime → ℕ → Bool → Scheduler → Cpu → Outcome (Scheduler × Cpu × Bool)
unfolding push_cli take_top
schedule_once now tie shutdown s cpu = do
  ensure (is_none cpu.context)
  let idle_exited = if shutdown then exit_idle_processes s else s
  c ← push_cli cpu
  woken ← try_wake_waiting_processes now shutdown idle_exited
  let counted =
      if needs_reset woken.scheduled_processes
      then reset_scheduled_processes_counters woken
      else woken
  taken ← take_top (pop tie counted.scheduled_processes) shutdown counted c
  ok (taken.0, taken.1, is_finished shutdown taken.0 taken.1)

unfoldable pub schedule : ClockTime → ℕ → System → Outcome (System × Bool)
unfolding schedule_once
schedule now tie s = schedule_once now tie s.shutdown s.scheduler s.cpu >>= λ r.
    ok (record s { scheduler = r.0; cpu = r.1 }, r.2)

-- `swap_context` with the context of the processor, which has to have one.
abbrev pub swap_with :
    Option ProcessContext
    → Cpu
    → InterruptAllSavedState
    → Outcome (ProcessContext × Cpu × InterruptAllSavedState)
swap_with none c a = panic
swap_with (some context) c a =
    let swapped = swap_context (context, a, c.fxsave) in
    ok (swapped.0, record c { fxsave = swapped.2 }, swapped.1)

unfoldable pub scheduler_interrupt_handler :
    InterruptAllSavedState → System → Outcome (System × InterruptAllSavedState)
scheduler_interrupt_handler a s = do
  ensure (a.frame.cs % 4 == 0)
  ensure (is_some s.cpu.context)
  ensure s.cpu.scheduling
  ensure (not s.cpu.interrupts)
  swapped ← swap_with s.cpu.context (record s.cpu { scheduling = false }) a
  ok (record s { cpu = record swapped.1 { context = some swapped.0 } }, swapped.2)

abbrev pub get_current : System → Outcome SchedulerProcess
get_current s = elim (get_mut s.cpu.process_id s.scheduler.running_waiting_procs) [
  | none ↦ panic
  | some p ↦ ensure (is_running p.state) >> ok p
]

-- `take_current_process`
abbrev pub without_current : System → Scheduler
without_current s = record s.scheduler {
  running_waiting_procs = remove s.cpu.process_id s.scheduler.running_waiting_procs;
}

abbrev pub save_context : ProcessContext → Process → Process
save_context context p = record p { context = context }

abbrev pub push_exited : Process → Scheduler → Scheduler
push_exited p s = record s { exited_processes = s.exited_processes ++ (p ∷ []) }

-- A call that takes the current process off the processor: what it does with the process.
unfoldable pub leave :
    (ProcessContext → SchedulerProcess → Scheduler)
    → InterruptAllSavedState
    → System
    → Outcome (System × InterruptAllSavedState)
unfolding push_cli pop_cli
leave put a s = do
  c ← push_cli s.cpu
  p ← get_current s
  swapped ← swap_with c.context c a
  c' ← pop_cli (record swapped.1 { context = none })
  ok (record s { scheduler = put swapped.0 p; cpu = c' }, swapped.2)

unfoldable pub exit_current_process :
    ℕ → InterruptAllSavedState → System → Outcome (System × InterruptAllSavedState)
unfolding leave
exit_current_process code a s = do
  ensure (is_some s.cpu.context)
  leave (λ context p. push_exited (exit code (save_context context p.process)) (without_current s))
      a s

-- The current process waits.
abbrev pub put_waiting : ProcessState → System → ProcessContext → SchedulerProcess → Scheduler
put_waiting state s context p = record s.scheduler {
  running_waiting_procs =
      write s.cpu.process_id (record p { process = save_context context p.process; state = state })
        s.scheduler.running_waiting_procs;
}

unfoldable pub sleep_current_process :
    ClockTime
    → ClockTime
    → InterruptAllSavedState
    → System
    → Outcome (System × InterruptAllSavedState)
unfolding leave
sleep_current_process now time a s = do
  ensure (is_some s.cpu.context)
  leave (put_waiting (waiting_for_time (add now time)) s) a s

unfoldable pub yield_current_if_any :
    InterruptAllSavedState → System → Outcome (System × InterruptAllSavedState)
unfolding leave
yield_current_if_any a s =
    if is_none s.cpu.context || s.cpu.scheduling
    then ok (s, a)
    else leave
        (λ context p.
          reschedule_process s.shutdown (record p { process = save_context context p.process })
            (without_current s))
        a s

abbrev pub has_pid : ℕ → List SchedulerProcess → Bool
has_pid pid [] = false
has_pid pid (p ∷ ps) = (p.process.id == pid) || has_pid pid ps

abbrev pub has_key : ℕ → Map SchedulerProcess → Bool
has_key pid [] = false
has_key pid ((k, p) ∷ m) = (k == pid) || has_key pid m

abbrev pub is_process_running : ℕ → Scheduler → Bool
is_process_running pid s = has_key pid s.running_waiting_procs || has_pid pid s.scheduled_processes

unfoldable pub wait_for_pid :
    ℕ → InterruptAllSavedState → System → Outcome (System × InterruptAllSavedState × Bool)
unfolding leave
wait_for_pid pid a s = do
  ensure (is_some s.cpu.context)
  (if is_process_running pid s.scheduler
      then (leave (put_waiting (waiting_for_pid pid) s) a s >>= λ r. ok (r.0, r.1, true))
      else ok (s, a, false))

abbrev pub stop_scheduler : System → System
stop_scheduler s = record s { shutdown = true }

-- What happens to the system: a process is pushed, the shutdown starts, the loop makes a pass, or an
-- interrupt comes, with the interrupts on or off, and calls.
pub data Call : Type 0 where
  enter_process yield_now : Call
  exit_with wait_for : ℕ → Call
  sleep_for : ClockTime → ClockTime → Call

pub data Event : Type 0 where
  push : Process → Event
  stop : Event
  pass : ClockTime → ℕ → Event
  interrupt : Bool → InterruptAllSavedState → Call → Event

abbrev pub call : Call → InterruptAllSavedState → System → Outcome (System × InterruptAllSavedState)
call enter_process a s = scheduler_interrupt_handler a s
call yield_now a s = yield_current_if_any a s
call (exit_with code) a s = exit_current_process code a s
call (wait_for pid) a s = wait_for_pid pid a s >>= λ r. ok (r.0, r.1)
call (sleep_for now time) a s = sleep_current_process now time a s

-- The flag `IF` of `rflags`.
abbrev pub interrupt_flag : ℕ → Bool
interrupt_flag rflags = leb 512 (rflags % 1024)

-- The return from the interrupt loads the flags.
abbrev pub return_from : System × InterruptAllSavedState → System
return_from (s, a) = record s { cpu = record s.cpu { interrupts = interrupt_flag a.frame.rflags } }

abbrev pub step : Event → System → Outcome System
step (push p) s = ok (record s { scheduler = push_process s.shutdown p s.scheduler })
step stop s = ok (stop_scheduler s)
step (pass now tie) s = schedule now tie s >>= λ r. ok r.0
step (interrupt on a c) s =
    call c a (record s { cpu = record s.cpu { interrupts = on } }) >>= λ r. ok (return_from r)

unfoldable pub run : List Event → System → Outcome System
run [] s = ok s
run (ev ∷ evs) s = step ev s >>= λ s'. run evs s'
