-- ===== src/Scheduler/State.antt =====
-- kernel/src/process/scheduler.rs: the state of the scheduler and what it does with its lists.
use emerald.Prelude.{
  ℕ, ◌-◌, max, Option, none, some, List, [], ◌∷◌, ◌++◌, map, take, drop, Bool, true, false, ltb,
  ◌==◌, if◌then◌else◌,
}
use emerald.Prelude.Words.{u64_mod}
use emerald.Clock.Time.{ClockTime}
use emerald.Scheduler.Process.{Process, Map, exit}

pub data ProcessState : Type 0 where
  running scheduled : ProcessState
  waiting_for_pid : ℕ → ProcessState
  waiting_for_time : ClockTime → ProcessState

pub record SchedulerProcess : Type 0 where
  pub process : Process
  pub state : ProcessState
  pub priority_counter : ℕ

-- The elements of the `BinaryHeap` are in no order.
pub record Scheduler : Type 0 where
  pub interrupt_initialized : Bool
  pub scheduled_processes : List SchedulerProcess
  pub running_waiting_procs : Map SchedulerProcess
  pub exited_processes : List Process
  pub max_priority : ℕ

abbrev pub min_priority_value : ℕ
min_priority_value = 100

abbrev pub u64_max : ℕ
u64_max = u64_mod - 1

abbrev pub new : Scheduler
new = record {
  interrupt_initialized = false;
  scheduled_processes = [];
  running_waiting_procs = [];
  exited_processes = [];
  max_priority = u64_max;
}

-- The handlers that `init_interrupt` registers are not modelled.
abbrev pub init_interrupt : Scheduler → Scheduler
init_interrupt s = record s { interrupt_initialized = true }

-- `SHUTDOWN` is the first argument.
unfoldable pub reschedule_process : Bool → SchedulerProcess → Scheduler → Scheduler
reschedule_process true p s = record s {
  exited_processes = s.exited_processes ++ (exit 255 p.process ∷ []);
}
reschedule_process false p s = record s {
  scheduled_processes =
      record p { priority_counter = s.max_priority; state = scheduled } ∷ s.scheduled_processes;
}

unfoldable pub push_process : Bool → Process → Scheduler → Scheduler
unfolding reschedule_process
push_process shutdown process s =
    reschedule_process shutdown
      (record { process = process; state = scheduled; priority_counter = s.max_priority }) s

abbrev pub with_max_priority : SchedulerProcess → SchedulerProcess
with_max_priority p = record p { priority_counter = u64_max }

unfoldable pub reset_scheduled_processes_counters : Scheduler → Scheduler
reset_scheduled_processes_counters s = record s {
  scheduled_processes = map with_max_priority s.scheduled_processes;
}

abbrev pub is_running : ProcessState → Bool
is_running running = true
is_running _ = false

abbrev pub is_scheduled : ProcessState → Bool
is_scheduled scheduled = true
is_scheduled _ = false

unfoldable pub retain_running : Map SchedulerProcess → Map SchedulerProcess
retain_running [] = []
retain_running ((k, p) ∷ m) =
    let rest = retain_running m in if is_running p.state then (k, p) ∷ rest else rest

-- A process that is stopped exits, and is dropped.
unfoldable pub exit_idle_processes : Scheduler → Scheduler
unfolding retain_running
exit_idle_processes s = record s {
  scheduled_processes = [];
  running_waiting_procs = retain_running s.running_waiting_procs;
}

abbrev pub max_counter : List SchedulerProcess → ℕ
max_counter [] = 0
max_counter (p ∷ ps) = max p.priority_counter (max_counter ps)

abbrev pub pop_first : ℕ → List SchedulerProcess → Option (SchedulerProcess × List SchedulerProcess)
pop_first c [] = none
pop_first c (p ∷ ps) =
    let rest = pop_first c ps in
    if p.priority_counter == c
    then some (p, ps)
    else elim rest [ none ↦ none | some (q, qs) ↦ some (q, p ∷ qs) ]

-- `pop` takes a process with the greatest counter; where several have it, `tie` selects the one.
unfoldable pub pop : ℕ → List SchedulerProcess → Option (SchedulerProcess × List SchedulerProcess)
pop tie ps = pop_first (max_counter ps) (drop tie ps ++ take tie ps)

-- Whether the counters are near 0.
abbrev pub needs_reset : List SchedulerProcess → Bool
needs_reset [] = false
needs_reset (p ∷ ps) = ltb (max_counter (p ∷ ps)) min_priority_value
