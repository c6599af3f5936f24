-- ===== src/Scheduler/Ends.antt =====
-- kernel/src/process/scheduler.rs: the end of the loop of `schedule`.
use emerald.Prelude.{
  ℕ, zero, suc, ◌≡◌, refl, ap, ◌∙◌, none, List, [], ◌∷◌, All, true, ok, bind-ok, ensure-ok,
}
use mathlib.Core.Path.{subst}
use emerald.Clock.Time.{ClockTime}
use emerald.Scheduler.Process.{Process, Map, is_none}
use emerald.Scheduler.State.{SchedulerProcess, Scheduler, retain_running, exit_idle_processes, pop}
use emerald.Scheduler.Wake.{tell_scheduled, tell_all, extract_if, try_wake_waiting_processes}
use emerald.Scheduler.Processor.{System, push_cli}
use emerald.Scheduler.Calls.{schedule_once, schedule, stop_scheduler, take_top}
use emerald.Scheduler.Visits.{IsEntry}
use emerald.Scheduler.Invariant.{runs, IsLists, runs_on}
use emerald.Scheduler.Leaving.{idle}
use emerald.Scheduler.Switch.{CanPush, pushed, push_cli-pushed}

retain_running-idle : (m : Map SchedulerProcess) → All (IsEntry idle) m → retain_running m ≡ []
unfolding retain_running
retain_running-idle [] h = refl
retain_running-idle ((k, p) ∷ m) (h, hs) = rw (h.1) (retain_running-idle m hs)

tell_all-nil : (es : List Process) → tell_all es [] ≡ ok []
unfolding tell_all tell_scheduled
tell_all-nil [] = refl
tell_all-nil (e ∷ es) = tell_all-nil es

-- Nobody is left to wake.
try_wake_waiting_processes-nil :
    (now : ClockTime) (s : Scheduler)
    → s.scheduled_processes ≡ []
    → s.running_waiting_procs ≡ []
    → try_wake_waiting_processes now true s
      ≡ ok
          (record s { scheduled_processes = []; running_waiting_procs = []; exited_processes = [] })
unfolding try_wake_waiting_processes extract_if
try_wake_waiting_processes-nil now s h m =
    bind-ok (extract_if now s.running_waiting_procs s.exited_processes) ([], [], s.exited_processes)
      _ (ap (λ m. extract_if now m s.exited_processes) m)
    ∙ bind-ok (tell_all s.exited_processes s.scheduled_processes) [] _
        (ap (tell_all s.exited_processes) h ∙ tell_all-nil s.exited_processes)

pop-nil : (tie : ℕ) → pop tie [] ≡ none
unfolding pop
pop-nil zero = refl
pop-nil (suc tie) = refl

-- After `stop_scheduler`, where the processor has no process and its interrupts can be counted, a pass
-- of `schedule` does not panic and ends the loop: all processes are gone, those that exited too.
pub stop_scheduler-schedule :
    (now : ClockTime) (tie : ℕ) (s : System)
    → IsLists (runs_on s.cpu) s.scheduler
    → s.cpu.context ≡ none
    → CanPush s.cpu
    → schedule now tie (stop_scheduler s)
      ≡ ok (
        record s {
          shutdown = true;
          cpu = pushed s.cpu;
          scheduler = record s.scheduler {
            scheduled_processes = [];
            running_waiting_procs = [];
            exited_processes = [];
          };
        },
        true,
      )
unfolding schedule schedule_once exit_idle_processes take_top
stop_scheduler-schedule now tie s (u, hs, es) off can =
    let s₀ = exit_idle_processes s.scheduler in
    let s₁ = record s.scheduler {
      scheduled_processes = [];
      running_waiting_procs = [];
      exited_processes = [];
    } in
    let all =
      subst (λ o. All (IsEntry (runs o s.cpu.process_id)) s.scheduler.running_waiting_procs) off
        es in
    bind-ok (schedule_once now tie true s.scheduler s.cpu) (s₁, pushed s.cpu, true) _
      (ensure-ok (is_none s.cpu.context) _ (ap is_none off)
        ∙ bind-ok (push_cli s.cpu) (pushed s.cpu) _ (push_cli-pushed s.cpu can)
        ∙ bind-ok (try_wake_waiting_processes now true s₀) s₁ _ (
            try_wake_waiting_processes-nil now s₀ refl
              (retain_running-idle s.scheduler.running_waiting_procs all))
        ∙ bind-ok (take_top (pop tie []) true s₁ (pushed s.cpu)) (s₁, pushed s.cpu) _
            (ap (λ o. take_top o true s₁ (pushed s.cpu)) (pop-nil tie))
        ∙ (λ i. ok (s₁, pushed s.cpu, is_none (off i))))
