-- ===== src/Scheduler/Examples.antt =====
-- A parent and its child on the scheduler of kernel/src/process/scheduler.rs, and the theorems at them.
use emerald.Prelude.{
  ℕ, ◌+◌, ◌-◌, ◌≡◌, ◌≤◌, refl, inl, none, some, [], ◌∷◌, map, true, false, ok, ◌>>=◌, Post, arith,
}
use emerald.Scheduler.Wakes.{live}
use emerald.Scheduler.Parents.{DeliveredTo, try_wake_waiting_processes-Delivered}
use emerald.Scheduler.Leaving.{nobody, Kept}
use emerald.Scheduler.Steps.{RanTo, all_comes, run-RanTo, step-Kept}
use emerald.Scheduler.Ends.{stop_scheduler-schedule}
use emerald.Scheduler.Tops.{counted}
use emerald.Scheduler.Turns.{Took, schedule_once-Took}
use emerald.Scheduler.Switch.{pushed, at_interrupt, SameRegisters, IsSaved, enter-yield}
use emerald.Clock.Time.{is_before}
use emerald.Scheduler.Context.{InterruptAllSavedState, swap_context}
use emerald.Scheduler.Process.{Process, remove}
use emerald.Scheduler.State.{
  running, scheduled, waiting_for_pid, waiting_for_time, SchedulerProcess, Scheduler, new, u64_max,
  reschedule_process, push_process, reset_scheduled_processes_counters, pop,
}
use emerald.Scheduler.Wake.{
  add_to_parent, wake_waiter, see_exited, visit, extract_if, tell_scheduled, tell_all,
  try_wake_waiting_processes,
}
use emerald.Scheduler.Processor.{Cpu, System, push_cli, pop_cli}
use emerald.Scheduler.Calls.{
  start, take_top, schedule_once, schedule, scheduler_interrupt_handler, leave,
  exit_current_process, yield_current_if_any, wait_for_pid, pass, step, run, stop_scheduler,
}
use emerald.Scheduler.Scripts.{context, parent, child, boot, at, in_kernel, in_user, waiting, after}

once : (n : ℕ) → live n boot.scheduler + all_comes waiting n ≤ 1
once n = ground arith

run-RanTo_example : RanTo waiting boot after
unfolding run schedule schedule_once push_cli pop_cli take_top start try_wake_waiting_processes
    extract_if visit see_exited add_to_parent wake_waiter tell_all tell_scheduled pop
    reschedule_process push_process reset_scheduled_processes_counters scheduler_interrupt_handler
    leave exit_current_process wait_for_pid swap_context
run-RanTo_example =
    run-RanTo waiting boot (((λ n. omega arith), tt, tt), refl)
      (tt, (tt, (tt, (tt, (tt, (tt, (tt, (tt, tt)))))))) once

after-exited : map (λ p. p.exit_code) after.scheduler.exited_processes ≡ 5 ∷ []
unfolding run schedule schedule_once push_cli pop_cli take_top start try_wake_waiting_processes
    extract_if visit see_exited add_to_parent wake_waiter tell_all tell_scheduled pop
    reschedule_process push_process reset_scheduled_processes_counters scheduler_interrupt_handler
    leave exit_current_process wait_for_pid swap_context
after-exited = refl

alone : (n : ℕ) → live n after.scheduler ≤ 1
unfolding run schedule schedule_once push_cli pop_cli take_top start try_wake_waiting_processes
    extract_if visit see_exited add_to_parent wake_waiter tell_all tell_scheduled pop
    reschedule_process push_process reset_scheduled_processes_counters scheduler_interrupt_handler
    leave exit_current_process wait_for_pid swap_context
alone n = ground arith

step-Kept_example : Post (Kept nobody nobody after) (step (pass (at 2) 0) after)
unfolding run schedule schedule_once push_cli pop_cli take_top start try_wake_waiting_processes
    extract_if visit see_exited add_to_parent wake_waiter tell_all tell_scheduled pop
    reschedule_process push_process reset_scheduled_processes_counters scheduler_interrupt_handler
    leave exit_current_process wait_for_pid swap_context
step-Kept_example = step-Kept (pass (at 2) 0) after ((alone, tt, ((refl, refl, refl), tt)), refl) tt

abbrev waiter : SchedulerProcess
waiter = record {
  process = record parent { context = record (context 4100) { rflags = 512; rax = 9 } };
  state = waiting_for_pid 1;
  priority_counter = u64_max - 2;
}

abbrev zombie : Process
zombie = record child { context = record (context 4100) { rflags = 512; rax = 9 }; exit_code = 5 }

-- The parent waits for the child, and the child has exited.
abbrev both : Scheduler
both = record new {
  running_waiting_procs = (0, waiter) ∷ [];
  exited_processes = zombie ∷ [];
  max_priority = u64_max - 3;
}

after-both : after.scheduler ≡ both
unfolding run schedule schedule_once push_cli pop_cli take_top start try_wake_waiting_processes
    extract_if visit see_exited add_to_parent wake_waiter tell_all tell_scheduled pop
    reschedule_process push_process reset_scheduled_processes_counters scheduler_interrupt_handler
    leave exit_current_process wait_for_pid swap_context
after-both = refl

abbrev awake : SchedulerProcess
awake = record waiter {
  process = record waiter.process {
    context = record waiter.process.context { rax = 5 };
    children_exits = (1, 5) ∷ [];
  };
  state = scheduled;
  priority_counter = u64_max - 3;
}

abbrev woken : Scheduler
woken = record new { scheduled_processes = awake ∷ []; max_priority = u64_max - 3 }

both-woken : try_wake_waiting_processes (at 2) false both ≡ ok woken
unfolding run schedule schedule_once push_cli pop_cli take_top start try_wake_waiting_processes
    extract_if visit see_exited add_to_parent wake_waiter tell_all tell_scheduled pop
    reschedule_process push_process reset_scheduled_processes_counters scheduler_interrupt_handler
    leave exit_current_process wait_for_pid swap_context
both-woken = refl

both-alone : (n : ℕ) → live n both ≤ 1
both-alone n = ground arith

try_wake_waiting_processes-Delivered_example : DeliveredTo 5 waiter woken
unfolding run schedule schedule_once push_cli pop_cli take_top start try_wake_waiting_processes
    extract_if visit see_exited add_to_parent wake_waiter tell_all tell_scheduled pop
    reschedule_process push_process reset_scheduled_processes_counters scheduler_interrupt_handler
    leave exit_current_process wait_for_pid swap_context
try_wake_waiting_processes-Delivered_example =
    try_wake_waiting_processes-Delivered (at 2) 1 5 zombie 0 waiter both
      (both-alone, tt, ((refl, refl, refl), tt)) (inl refl) refl (inl refl) refl refl
      ((λ e. refl), tt)

abbrev sleeper : SchedulerProcess
sleeper = record waiter { state = waiting_for_time (at 5) }

abbrev asleep : Scheduler
asleep = record both { running_waiting_procs = (0, sleeper) ∷ []; exited_processes = [] }

abbrev risen : Scheduler
risen = record woken {
  scheduled_processes = record sleeper { state = scheduled; priority_counter = u64_max - 3 } ∷ [];
}

-- A parent that sleeps is not told of the child that exits: the exit code is lost.
asleep-loses :
    try_wake_waiting_processes (at 2) false (record asleep { exited_processes = zombie ∷ [] })
    ≡ ok asleep
unfolding run schedule schedule_once push_cli pop_cli take_top start try_wake_waiting_processes
    extract_if visit see_exited add_to_parent wake_waiter tell_all tell_scheduled pop
    reschedule_process push_process reset_scheduled_processes_counters scheduler_interrupt_handler
    leave exit_current_process wait_for_pid swap_context is_before
asleep-loses = refl

abbrev other : SchedulerProcess
other = record waiter { process = record waiter.process { id = 2 } }

-- The waiter with the identity 2 comes after the parent, which takes the exited child off the list: it
-- waits for ever.
other-waits :
    (try_wake_waiting_processes (at 2) false (record both {
      running_waiting_procs = (0, record waiter { state = running }) ∷ (2, other) ∷ [];
    })
      >>= λ s. ok s.scheduled_processes)
    ≡ ok []
unfolding run schedule schedule_once push_cli pop_cli take_top start try_wake_waiting_processes
    extract_if visit see_exited add_to_parent wake_waiter tell_all tell_scheduled pop
    reschedule_process push_process reset_scheduled_processes_counters scheduler_interrupt_handler
    leave exit_current_process wait_for_pid swap_context
other-waits = refl

abbrev idle_cpu : Cpu
idle_cpu = record boot.cpu { process_id = 1 }

schedule_once-Took_example :
    (s' : Scheduler) × (c' : Cpu) × (schedule_once (at 2) 0 false both idle_cpu
      ≡ ok (s', c', false))
    × Took (counted woken) s' c'
schedule_once-Took_example =
    schedule_once-Took (at 2) 0 both woken idle_cpu (both-alone, tt, ((refl, refl, refl), tt)) refl
      (refl, refl) both-woken

stop_scheduler-schedule_example :
    schedule (at 2) 0 (stop_scheduler after)
    ≡ ok (
      record after {
        shutdown = true;
        cpu = pushed after.cpu;
        scheduler = record after.scheduler {
          scheduled_processes = [];
          running_waiting_procs = [];
          exited_processes = [];
        };
      },
      true,
    )
unfolding run schedule schedule_once push_cli pop_cli take_top start try_wake_waiting_processes
    extract_if visit see_exited add_to_parent wake_waiter tell_all tell_scheduled pop
    reschedule_process push_process reset_scheduled_processes_counters scheduler_interrupt_handler
    leave exit_current_process wait_for_pid swap_context
stop_scheduler-schedule_example =
    stop_scheduler-schedule (at 2) 0 after (alone, tt, ((refl, refl, refl), tt)) refl (refl, refl)

abbrev pub runner : SchedulerProcess
runner = record { process = parent; state = running; priority_counter = u64_max - 2 }

-- The parent is about to be entered.
abbrev pub at_gate : System
at_gate = record boot {
  scheduler = record new { running_waiting_procs = (0, runner) ∷ []; max_priority = u64_max - 2 };
  cpu = record boot.cpu { context = some (context 4096); scheduling = true; interrupts = false };
}

enter-yield_example :
    (s₁ : System) × (b : InterruptAllSavedState) × (s₂ : System) × (saved : SchedulerProcess)
    × (scheduler_interrupt_handler in_kernel at_gate ≡ ok (s₁, b))
    × SameRegisters (context 4096) b s₁.cpu.fxsave
    × (yield_current_if_any in_user
          (at_interrupt at_gate in_kernel in_user (1 ∷ []) (context 4096) runner s₁)
        ≡ ok (s₂, record in_user { frame = in_kernel.frame; rest = in_kernel.rest }))
    × (s₂.cpu.fxsave ≡ [])
    × (s₂.cpu.context ≡ none)
    × IsSaved at_gate in_kernel in_user (1 ∷ []) (context 4096) runner saved
    × (s₂.scheduler ≡ record at_gate.scheduler {
      scheduled_processes = saved ∷ at_gate.scheduler.scheduled_processes;
      running_waiting_procs = remove at_gate.cpu.process_id at_gate.scheduler.running_waiting_procs;
    })
enter-yield_example =
    enter-yield at_gate in_kernel in_user (1 ∷ []) (context 4096) runner (refl, refl) refl refl refl
      refl refl (omega arith, omega arith) (omega arith, omega arith) refl refl
