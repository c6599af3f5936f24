-- ===== src/Scheduler/Wake.antt =====
-- kernel/src/process/scheduler.rs: `try_wake_waiting_processes`.
use emerald.Prelude.{
  ℕ, ◌+◌, ◌-◌, ◌%◌, ◌^◌, List, [], ◌∷◌, Bool, true, false, not, Outcome, ok, panic, ◌>>=◌, ◌>>◌,
  ensure, ltb, ◌==◌, if◌then◌else◌,
}
use emerald.Prelude.Words.{u32_mod, u64_mod}
use emerald.Clock.Time.{ClockTime, is_before}
use emerald.Scheduler.Process.{Process, Map, add_child_exit}
use emerald.Scheduler.State.{
  running, scheduled, waiting_for_pid, waiting_for_time, SchedulerProcess, Scheduler,
  reschedule_process,
}

-- An `i32` as a `u64`.
abbrev pub sign_extend : ℕ → ℕ
sign_extend c = if ltb c (2 ^ 31) then c else c + (u64_mod - u32_mod)

-- A process that waits, an exited one, and whether the first one leaves `running_waiting_procs`.
unfoldable pub add_to_parent : SchedulerProcess → Process → Outcome SchedulerProcess
add_to_parent p e =
    if e.parent_id == p.process.id
    then (add_child_exit e.id e.exit_code p.process >>= λ q. ok (record p { process = q }))
    else ok p

-- The result of the call that waits.
abbrev pub put_result : ℕ → SchedulerProcess → SchedulerProcess
put_result code p = record p {
  process = record p.process { context = record p.process.context { rax = sign_extend code } };
}

unfoldable pub wake_waiter : Bool → SchedulerProcess → Process → Outcome (SchedulerProcess × Bool)
wake_waiter remove p e = elim (p.state) [
  | running ↦ ok (p, remove)
  | scheduled ↦ ok (p, remove)
  | waiting_for_pid pid ↦
      if pid == e.id
      then ensure (p.process.context.cs % 4 == 3) >> ok (put_result e.exit_code p, true)
      else ok (p, remove)
  | waiting_for_time t ↦ ok (p, remove)
]

-- `retain_mut`: the process, whether it leaves, and the exited processes that are left.
unfoldable pub see_exited :
    Bool → SchedulerProcess → List Process → Outcome (SchedulerProcess × Bool × List Process)
unfolding add_to_parent wake_waiter
see_exited remove p [] = ok (p, remove, [])
see_exited remove p (e ∷ es) = do
  p' ← add_to_parent p e
  woken ← wake_waiter remove p' e
  seen ← see_exited woken.1 woken.0 es
  ok (seen.0, seen.1, if e.parent_id == p.process.id then seen.2 else e ∷ seen.2)

unfoldable pub visit :
    ClockTime → SchedulerProcess → List Process → Outcome (SchedulerProcess × Bool × List Process)
unfolding see_exited
visit now p es = elim (p.state) [
  | running ↦ see_exited false p es
  | scheduled ↦ panic
  | waiting_for_pid pid ↦ see_exited false p es
  | waiting_for_time t ↦ ok (p, not (is_before now t), es)
]

-- `extract_if`: the processes that leave, those that stay, and the exited ones that are left.
unfoldable pub extract_if :
    ClockTime
    → Map SchedulerProcess
    → List Process
    → Outcome (List SchedulerProcess × Map SchedulerProcess × List Process)
unfolding visit
extract_if now [] es = ok ([], [], es)
extract_if now ((k, p) ∷ m) es = do
  seen ← visit now p es
  rest ← extract_if now m seen.2
  ok (if seen.1 then (seen.0 ∷ rest.0, rest.1, rest.2) else (rest.0, (k, seen.0) ∷ rest.1, rest.2))

abbrev pub reschedule_all : Bool → List SchedulerProcess → Scheduler → Scheduler
reschedule_all shutdown [] s = s
reschedule_all shutdown (p ∷ ps) s = reschedule_all shutdown ps (reschedule_process shutdown p s)

-- An exited process whose parent is scheduled.
unfoldable pub tell_scheduled : Process → List SchedulerProcess → Outcome (List SchedulerProcess)
unfolding add_to_parent
tell_scheduled e [] = ok []
tell_scheduled e (p ∷ ps) = do p' ← add_to_parent p e; rest ← tell_scheduled e ps; ok (p' ∷ rest)

unfoldable pub tell_all : List Process → List SchedulerProcess → Outcome (List SchedulerProcess)
unfolding tell_scheduled
tell_all [] ps = ok ps
tell_all (e ∷ es) ps = tell_scheduled e ps >>= λ ps'. tell_all es ps'

unfoldable pub try_wake_waiting_processes : ClockTime → Bool → Scheduler → Outcome Scheduler
unfolding extract_if tell_all
try_wake_waiting_processes now shutdown s = do
  extracted ← extract_if now s.running_waiting_procs s.exited_processes
  let s' =
      reschedule_all shutdown extracted.0
        (record s { running_waiting_procs = extracted.1; exited_processes = extracted.2 })
  told ← tell_all s'.exited_processes s'.scheduled_processes
  ok (record s' { scheduled_processes = told; exited_processes = [] })
