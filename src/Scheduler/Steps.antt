-- ===== src/Scheduler/Steps.antt =====
-- kernel/src/process/scheduler.rs: the scheduler over any sequence of events.
use emerald.Prelude.{
  ℕ, ◌+◌, ◌≤◌, ◌≡◌, refl, sym, inl, inr, Option, none, some, List, [], ◌∷◌, All, Bool, true, false,
  ◌||◌, ok, ◌>>=◌, ensure, Post, Post-bind, Post-map, ensure-Post, not, ◌==◌, ◌%◌, ==-self,
  if◌then◌else◌, Bool-cases, arith,
}
use mathlib.Core.Path.{subst}
use emerald.Clock.Time.{ClockTime, add}
use emerald.Scheduler.Context.{ProcessContext, InterruptAllSavedState}
use emerald.Scheduler.Process.{Process, is_none}
use emerald.Scheduler.State.{waiting_for_pid, waiting_for_time, push_process, reschedule_process}
use emerald.Scheduler.Processor.{System, is_some}
use emerald.Scheduler.Calls.{
  schedule, schedule_once, scheduler_interrupt_handler, exit_current_process, sleep_current_process,
  yield_current_if_any, wait_for_pid, is_process_running, Call, enter_process, yield_now, exit_with,
  wait_for, sleep_for, Event, push, stop, pass, interrupt, call, step, run, swap_with, put_waiting,
  leave,
}
use emerald.Scheduler.Census.{same}
use emerald.Scheduler.Wakes.{live}
use emerald.Scheduler.Invariant.{runs, IsLists, IsSystem}
use emerald.Scheduler.Leaving.{
  nobody, Kept, KeptWith, current, wait-KeptWith, exit-KeptWith, yield-KeptWith,
}
use emerald.Scheduler.Passes.{PassedOnce, schedule_once-PassedOnce}

-- The process that an event brings, and the one that it ends.
abbrev pub comes : Event → ℕ → ℕ
comes (push p) n = same n p.id
comes stop n = 0
comes (pass now tie) n = 0
comes (interrupt on a c) n = 0

-- A call ends the process that runs, or none.
abbrev pub ends : Call → ℕ → ℕ → ℕ
ends enter_process pid n = 0
ends yield_now pid n = 0
ends (exit_with code) pid n = same n pid
ends (wait_for other) pid n = 0
ends (sleep_for now time) pid n = 0

abbrev pub goes : Event → System → ℕ → ℕ
goes (push p) s n = 0
goes stop s n = 0
goes (pass now tie) s n = 0
goes (interrupt on a c) s n = ends c s.cpu.process_id n

same-Kept : (s : System) → IsSystem s → Kept nobody nobody s s
same-Kept s h = (h, λ n. refl)

enter-KeptWith :
    (a : InterruptAllSavedState) (s : System)
    → IsSystem s
    → Post (KeptWith nobody nobody s) (scheduler_interrupt_handler a s)
unfolding scheduler_interrupt_handler
enter-KeptWith a s h =
    Post-bind _ (KeptWith nobody nobody s) (ensure (a.frame.cs % 4 == 0)) _ (ensure-Post _)
      (λ u₁ e₁.
        Post-bind _ (KeptWith nobody nobody s) (ensure (is_some s.cpu.context)) _ (ensure-Post _)
          (λ u₂ e₂.
            Post-bind _ (KeptWith nobody nobody s) (ensure s.cpu.scheduling) _ (ensure-Post _)
              (λ u₃ e₃.
                Post-bind _ (KeptWith nobody nobody s) (ensure (not s.cpu.interrupts)) _
                  (ensure-Post _) (λ u₄ e₄. swapped s.cpu.context refl))))
  where
    swapped :
        (o : Option ProcessContext)
        → s.cpu.context ≡ o
        → Post (KeptWith nobody nobody s) (
            swap_with o (record s.cpu { scheduling = false }) a >>= λ swapped.
            ok (record s { cpu = record swapped.1 { context = some swapped.0 } }, swapped.2))
    swapped none e = tt
    swapped (some context) e =
        ((subst (λ o. IsLists (runs o s.cpu.process_id) s.scheduler) e h.0, h.1), λ n. refl)

abbrev KeptThree : System → System × InterruptAllSavedState × Bool → Type 0
KeptThree s (s', a, waits) = Kept nobody nobody s s'

wait_for_pid-KeptThree :
    (pid : ℕ) (a : InterruptAllSavedState) (s : System)
    → IsSystem s
    → Post (KeptThree s) (wait_for_pid pid a s)
unfolding wait_for_pid
wait_for_pid-KeptThree pid a s h =
    Post-bind _ (KeptThree s) (ensure (is_some s.cpu.context)) _ (ensure-Post _)
      (λ u e. either_way (is_process_running pid s.scheduler))
  where
    either_way :
        (b : Bool)
        → Post (KeptThree s) (
            if b
            then (leave (put_waiting (waiting_for_pid pid) s) a s >>= λ r. ok (r.0, r.1, true))
            else ok (s, a, false))
    either_way true =
        Post-bind (KeptWith nobody nobody s) (KeptThree s)
          (leave (put_waiting (waiting_for_pid pid) s) a s) _
          (wait-KeptWith (waiting_for_pid pid) a s refl refl h) (λ r k. k)
    either_way false = same-Kept s h

sleep-KeptWith :
    (now time : ClockTime) (a : InterruptAllSavedState) (s : System)
    → IsSystem s
    → Post (KeptWith nobody nobody s) (sleep_current_process now time a s)
unfolding sleep_current_process
sleep-KeptWith now time a s h =
    Post-bind _ (KeptWith nobody nobody s) (ensure (is_some s.cpu.context)) _ (ensure-Post _)
      (λ u e. wait-KeptWith (waiting_for_time (add now time)) a s refl refl h)

exit_current-KeptWith :
    (code : ℕ) (a : InterruptAllSavedState) (s : System)
    → IsSystem s
    → Post (KeptWith nobody (current s) s) (exit_current_process code a s)
unfolding exit_current_process
exit_current-KeptWith code a s h =
    Post-bind _ (KeptWith nobody (current s) s) (ensure (is_some s.cpu.context)) _ (ensure-Post _)
      (λ u e. exit-KeptWith code a s h)

yield_current-KeptWith :
    (a : InterruptAllSavedState) (s : System)
    → IsSystem s
    → Post (KeptWith nobody nobody s) (yield_current_if_any a s)
unfolding yield_current_if_any
yield_current-KeptWith a s h = elim (Bool-cases (is_none s.cpu.context || s.cpu.scheduling)) [
  | inl e ↦ rw e (same-Kept s h)
  | inr e ↦ rw e (yield-KeptWith a s h)
]

-- A pushed process has a new identity, and no shutdown begins.
abbrev pub IsAllowed : Event → System → Type 0
IsAllowed (push p) s = live p.id s.scheduler ≡ 0
IsAllowed stop s = ⊥
IsAllowed (pass now tie) s = Unit
IsAllowed (interrupt on a c) s = Unit

call-KeptWith :
    (a : InterruptAllSavedState) (c : Call) (s : System)
    → IsSystem s
    → Post (KeptWith nobody (ends c s.cpu.process_id) s) (call c a s)
call-KeptWith a enter_process s h = enter-KeptWith a s h
call-KeptWith a yield_now s h = yield_current-KeptWith a s h
call-KeptWith a (exit_with code) s h = exit_current-KeptWith code a s h
call-KeptWith a (wait_for pid) s h =
    Post-bind (KeptThree s) (KeptWith nobody nobody s) (wait_for_pid pid a s) _
      (wait_for_pid-KeptThree pid a s h) (λ r k. k)
call-KeptWith a (sleep_for now time) s h = sleep-KeptWith now time a s h

push-Kept :
    (p : Process) (s : System)
    → IsSystem s
    → live p.id s.scheduler ≡ 0
    → Kept
        (λ n. same n p.id)
        nobody
        s
        (record s { scheduler = push_process s.shutdown p s.scheduler })
unfolding push_process reschedule_process
push-Kept p s h new =
    rw (h.1) ((((λ n. ground (arith, h.0.0 n, new)), (refl, h.0.1), h.0.2), refl), λ n. omega arith)

schedule-Kept :
    (now : ClockTime) (tie : ℕ) (s : System)
    → IsSystem s
    → Post (λ r. Kept nobody nobody s r.0) (schedule now tie s)
unfolding schedule
schedule-Kept now tie s h =
    Post-bind (PassedOnce s.scheduler) (λ r. Kept nobody nobody s r.0)
      (schedule_once now tie s.shutdown s.scheduler s.cpu) _
      (subst (λ b. Post (PassedOnce s.scheduler) (schedule_once now tie b s.scheduler s.cpu))
        (sym h.1) (schedule_once-PassedOnce now tie s.scheduler s.cpu h.0))
      (λ r (l, count). ((l, h.1), λ n. omega (arith, count n)))

-- From a system that keeps the invariant and does not shut down, an event other than
-- `stop_scheduler`, which pushes only processes whose identity no other has, and which does not panic,
-- keeps the invariant: no process is in two places, the heap has the scheduled ones, and an entry of
-- `running_waiting_procs` runs exactly where the processor has its context. Each process occurs as
-- often as before, but for the one that is pushed or that exits.
pub step-Kept :
    (ev : Event) (s : System)
    → IsSystem s
    → IsAllowed ev s
    → Post (Kept (comes ev) (goes ev s) s) (step ev s)
step-Kept (push p) s h new = push-Kept p s h new
step-Kept stop s h k = absurd k
step-Kept (pass now tie) s h k =
    Post-bind (λ r. Kept nobody nobody s r.0) (Kept nobody nobody s) (schedule now tie s) _
      (schedule-Kept now tie s h) (λ r k. k)
step-Kept (interrupt on a c) s h k =
    let s' = record s { cpu = record s.cpu { interrupts = on } } in
    Post-bind (KeptWith nobody (ends c s.cpu.process_id) s')
      (Kept nobody (ends c s.cpu.process_id) s) (call c a s') _ (call-KeptWith a c s' h) (λ r k. k)

-- How often a sequence of events brings a process.
abbrev pub all_comes : List Event → ℕ → ℕ
all_comes [] n = 0
all_comes (ev ∷ evs) n = comes ev n + all_comes evs n

abbrev pub IsRunning : Event → Type 0
IsRunning stop = ⊥
IsRunning _ = Unit

-- The invariant, and no process but those that were there or came.
abbrev pub RanTo : List Event → System → System → Type 0
RanTo evs s s' =
    IsSystem s' × ((n : ℕ) → live n s'.scheduler ≤ live n s.scheduler + all_comes evs n)

-- From a system that satisfies the invariant, over any sequence of events without `stop_scheduler` that
-- brings no process twice and none that is there: if no event panics, the invariant holds at the end
-- (no process is in two places, the heap has the scheduled ones, and an entry of
-- `running_waiting_procs` runs exactly where the processor has its context), and every process that
-- is there was there before or came.
pub run-RanTo :
    (evs : List Event) (s : System)
    → IsSystem s
    → All IsRunning evs
    → ((n : ℕ) → live n s.scheduler + all_comes evs n ≤ 1)
    → Post (RanTo evs s) (run evs s)
unfolding run
run-RanTo [] s h all once = (h, λ n. omega arith)
run-RanTo (ev ∷ evs) s h (now, later) once =
    Post-bind (Kept (comes ev) (goes ev s) s) (RanTo (ev ∷ evs) s) (step ev s) _
      (step-Kept ev s h (allowed ev now once))
      (λ s' (h', b).
        Post-map (RanTo evs s') (RanTo (ev ∷ evs) s) (run evs s')
          (run-RanTo evs s' h' later (λ n. omega (arith, once n, b n)))
          (λ s'' (h'', b'). (h'', λ n. omega (arith, b n, b' n))))
  where
    allowed :
        (ev : Event)
        → IsRunning ev
        → ((n : ℕ) → live n s.scheduler + (comes ev n + all_comes evs n) ≤ 1)
        → IsAllowed ev s
    allowed (push p) r once = ground (arith, once p.id, ==-self p.id)
    allowed stop r once = r
    allowed (pass now tie) r once = tt
    allowed (interrupt on a c) r once = tt
