-- ===== src/Scheduler/Wakes.antt =====
-- kernel/src/process/scheduler.rs: `try_wake_waiting_processes` neither loses nor duplicates a process.
use emerald.Prelude.{
  ℕ, ◌+◌, ◌≡◌, refl, sym, ap, ◌∙◌, List, [], ◌∷◌, All, Bool, false, Post, Post-bind, Post-map,
  arith,
}
use mathlib.Core.Path.{subst}
use emerald.Clock.Time.{ClockTime}
use emerald.Scheduler.Process.{Process}
use emerald.Scheduler.State.{scheduled, SchedulerProcess, Scheduler, reschedule_process}
use emerald.Scheduler.Wake.{
  add_to_parent, extract_if, reschedule_all, tell_scheduled, tell_all, try_wake_waiting_processes,
}
use emerald.Scheduler.Census.{same, in_heap, in_map}
use emerald.Scheduler.Visits.{
  Stays, add_to_parent-Stays, IsEntry, EntryNotDue, Extracted, extract_if-Extracted,
}

abbrev pub IsScheduled : SchedulerProcess → Type 0
IsScheduled p = p.state ≡ scheduled

-- A heap becomes another one with the same processes, all of them scheduled.
abbrev pub SameHeap : List SchedulerProcess → List SchedulerProcess → Type 0
SameHeap ps qs = ((n : ℕ) → in_heap n qs ≡ in_heap n ps) × All IsScheduled qs

tell_scheduled-SameHeap :
    (e : Process) (ps : List SchedulerProcess)
    → All IsScheduled ps
    → Post (SameHeap ps) (tell_scheduled e ps)
unfolding tell_scheduled
tell_scheduled-SameHeap e [] h = ((λ n. refl), tt)
tell_scheduled-SameHeap e (p ∷ ps) (h, hs) =
    Post-bind (Stays p) (SameHeap (p ∷ ps)) (add_to_parent p e) _ (add_to_parent-Stays p e)
      (λ q (i, s).
        Post-bind (SameHeap ps) (SameHeap (p ∷ ps)) (tell_scheduled e ps) _
          (tell_scheduled-SameHeap e ps hs)
          (λ qs (c, all). ((λ n. omega (arith, c n, ap (same n) i)), (s ∙ h, all))))

tell_all-SameHeap :
    (es : List Process) (ps : List SchedulerProcess)
    → All IsScheduled ps
    → Post (SameHeap ps) (tell_all es ps)
unfolding tell_all
tell_all-SameHeap [] ps h = ((λ n. refl), h)
tell_all-SameHeap (e ∷ es) ps h =
    Post-bind (SameHeap ps) (SameHeap ps) (tell_scheduled e ps) _ (tell_scheduled-SameHeap e ps h)
      (λ qs (c, all).
        Post-map (SameHeap qs) (SameHeap ps) (tell_all es qs) (tell_all-SameHeap es qs all)
          (λ rs (c', all'). ((λ n. c' n ∙ c n), all')))

-- The processes that leave go to the heap.
abbrev pub Rescheduled : List SchedulerProcess → Scheduler → Scheduler → Type 0
Rescheduled ps s s' =
    ((n : ℕ) → in_heap n s'.scheduled_processes ≡ in_heap n ps + in_heap n s.scheduled_processes)
    × All IsScheduled s'.scheduled_processes
    × (s'.running_waiting_procs ≡ s.running_waiting_procs)

reschedule_all-Rescheduled :
    (ps : List SchedulerProcess) (s : Scheduler)
    → All IsScheduled s.scheduled_processes
    → Rescheduled ps s (reschedule_all false ps s)
unfolding reschedule_process
reschedule_all-Rescheduled [] s h = ((λ n. omega arith), h, refl)
reschedule_all-Rescheduled (p ∷ ps) s h =
    let (c, all, m) = reschedule_all-Rescheduled ps (reschedule_process false p s) (refl, h) in
    ((λ n. omega (arith, c n)), all, m)

-- How often a process is scheduled, runs or waits.
abbrev pub live : ℕ → Scheduler → ℕ
live n s = in_heap n s.scheduled_processes + in_map n s.running_waiting_procs

abbrev pub Woken : ClockTime → (ℕ → Bool) → Scheduler → Scheduler → Type 0
Woken now runs s s' =
    ((n : ℕ) → live n s' ≡ live n s)
    × All (IsEntry runs) s'.running_waiting_procs
    × All (EntryNotDue now) s'.running_waiting_procs
    × All IsScheduled s'.scheduled_processes

-- Where the scheduler is not shutting down, its entries are sound and its heap is scheduled, then
-- `try_wake_waiting_processes`, if it does not panic, keeps each process exactly as often as it was,
-- keeps the entries sound, and leaves no sleeper whose time has come: it is in the heap.
pub try_wake_waiting_processes-Woken :
    (now : ClockTime) (runs : ℕ → Bool) (s : Scheduler)
    → All (IsEntry runs) s.running_waiting_procs
    → All IsScheduled s.scheduled_processes
    → Post (Woken now runs s) (try_wake_waiting_processes now false s)
unfolding try_wake_waiting_processes
try_wake_waiting_processes-Woken now runs s h hs =
    Post-bind (Extracted now runs s.running_waiting_procs) (Woken now runs s)
      (extract_if now s.running_waiting_procs s.exited_processes) _
      (extract_if-Extracted now runs s.running_waiting_procs s.exited_processes h)
      (λ x (c, e, l).
        let s₁ = record s { running_waiting_procs = x.1; exited_processes = x.2 } in
        let s' = reschedule_all false x.0 s₁ in
        let (c', all, m) = reschedule_all-Rescheduled x.0 s₁ hs in
        Post-bind (SameHeap s'.scheduled_processes) (Woken now runs s)
          (tell_all s'.exited_processes s'.scheduled_processes) _
          (tell_all-SameHeap s'.exited_processes s'.scheduled_processes all)
          (λ qs (c'', all'). (
            (λ n. omega (arith, c n, c' n, c'' n, ap (in_map n) m)),
            subst (All (IsEntry runs)) (sym m) e,
            subst (All (EntryNotDue now)) (sym m) l,
            all',
          )))
