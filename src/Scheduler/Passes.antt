-- ===== src/Scheduler/Passes.antt =====
-- kernel/src/process/scheduler.rs: a pass of `schedule` keeps the invariant.
use emerald.Prelude.{
  ℕ, ◌+◌, ◌-◌, ◌≡◌, refl, sym, ◌∙◌, inl, inr, Option, none, some, List, [], ◌∷◌, map, All, Bool,
  true, false, ensure, Post, Post-bind, ensure-Post, ==-self, if◌then◌else◌, Bool-cases, leb, arith,
}
use mathlib.Core.Path.{subst}
use emerald.Clock.Rtc.{checked_minus}
use emerald.Clock.Time.{ClockTime}
use emerald.Scheduler.Context.{ProcessContext}
use emerald.Scheduler.Process.{get_mut, is_none, to_u64}
use emerald.Scheduler.State.{
  SchedulerProcess, Scheduler, is_scheduled, running, with_max_priority, max_counter, needs_reset,
  pop, reset_scheduled_processes_counters,
}
use emerald.Scheduler.Wake.{try_wake_waiting_processes}
use emerald.Scheduler.Processor.{Cpu, push_cli, pop_cli}
use emerald.Scheduler.Calls.{start, take_top, schedule_once}
use emerald.Scheduler.Census.{
  one, in_heap, in_map, in_heap-reset, in_map-insert, Popped, pop-Popped, PoppedAll, pop-PoppedAll,
}
use emerald.Scheduler.Wakes.{IsScheduled, live, Woken, try_wake_waiting_processes-Woken}
use emerald.Scheduler.Entries.{Agree, get_mut-fresh, insert-entries}
use emerald.Scheduler.Invariant.{runs, runs_on, IsLists, SameCpu, push_cli-SameCpu, pop_cli-SameCpu}
use emerald.Scheduler.Leaving.{idle}

-- The same processes, and lists that are sound for what runs.
abbrev pub SameLists : Scheduler → (ℕ → Bool) → Scheduler → Type 0
SameLists s r s' = IsLists r s' × ((n : ℕ) → live n s' ≡ live n s)

abbrev pub Passed : Scheduler → Scheduler × Cpu → Type 0
Passed s (s', c') = SameLists s (runs_on c') s'

abbrev pub IsTop : Scheduler → Option (SchedulerProcess × List SchedulerProcess) → Type 0
IsTop s none = Unit
IsTop s (some (top, heap)) =
    ((n : ℕ) → one n top + in_heap n heap ≡ in_heap n s.scheduled_processes) × All IsScheduled heap

-- The process that is taken has no entry yet.
pub top-absent :
    (top : SchedulerProcess) (heap : List SchedulerProcess) (s : Scheduler)
    → IsLists idle s
    → IsTop s (some (top, heap))
    → in_map top.process.id s.running_waiting_procs ≡ 0
top-absent top heap s (u, hs, es) (count, all) =
    ground (arith, u top.process.id, count top.process.id, ==-self top.process.id)

runs-start : (context : ProcessContext) (pid : ℕ) → Agree pid idle (runs (some context) pid)
runs-start context pid j ne = ne

start-Passed :
    (top : SchedulerProcess) (heap : List SchedulerProcess) (s : Scheduler) (c : Cpu)
    → IsLists idle s
    → IsTop s (some (top, heap))
    → Post (Passed s) (start top heap s c)
unfolding start
start-Passed top heap s c (u, hs, es) (count, all) =
    Post-bind (λ counter. Unit) (Passed s)
      (checked_minus top.priority_counter (6 - to_u64 top.process.priority)) _
      (checked_minus-Post top.priority_counter (6 - to_u64 top.process.priority))
      (λ counter t.
        let top' = record top { state = running; priority_counter = counter } in
        let c' = λ (n : ℕ). in_map-insert n pid top' s.running_waiting_procs fresh in
        (
          (
            (λ n. omega (arith, u n, count n, c' n)),
            all,
            insert-entries idle (runs (some top.process.context) pid) pid top'
                s.running_waiting_procs (runs-start top.process.context pid) absent
                (refl, sym (==-self pid), refl) es,
          ),
          λ n. omega (arith, count n, c' n),
        ))
  where
    pid : ℕ
    pid = top.process.id

    absent : in_map pid s.running_waiting_procs ≡ 0
    absent = top-absent top heap s (u, hs, es) (count, all)

    fresh : get_mut pid s.running_waiting_procs ≡ none
    fresh = get_mut-fresh idle pid s.running_waiting_procs absent es

    checked_minus-Post : (a b : ℕ) → Post (λ n. Unit) (checked_minus a b)
    checked_minus-Post a b = elim (Bool-cases (leb b a)) [ inl e ↦ rw e tt | inr e ↦ rw e tt ]

take_top-Passed :
    (o : Option (SchedulerProcess × List SchedulerProcess)) (s : Scheduler) (c : Cpu)
    → c.context ≡ none
    → IsLists idle s
    → IsTop s o
    → Post (Passed s) (take_top o false s c)
unfolding take_top
take_top-Passed none s c off l h =
    (subst (λ o. IsLists (runs o c.process_id) s) (sym off) l, λ n. refl)
take_top-Passed (some (top, heap)) s c off l h =
    Post-bind _ (Passed s) (ensure (is_scheduled top.state)) _
      (ensure-Post (is_scheduled top.state))
      (λ u e.
        Post-bind (Passed s) (Passed s) (start top heap s c) _ (start-Passed top heap s c l h)
          (λ r p.
            Post-bind (SameCpu r.1) (Passed s) (pop_cli r.1) _ (pop_cli-SameCpu r.1)
              (λ c' (x, y, z).
                (subst (λ f. IsLists f r.0) (λ i. runs (sym x i) (sym y i)) p.0, p.1))))

pub reset-SameLists :
    (s : Scheduler)
    → IsLists idle s
    → SameLists s idle
        (if needs_reset s.scheduled_processes then reset_scheduled_processes_counters s else s)
unfolding reset_scheduled_processes_counters
reset-SameLists s (u, hs, es) = either_way (needs_reset s.scheduled_processes)
  where
    all_reset :
        (ps : List SchedulerProcess)
        → All IsScheduled ps
        → All IsScheduled (map with_max_priority ps)
    all_reset [] h = tt
    all_reset (p ∷ ps) (h, hs) = (h, all_reset ps hs)

    either_way :
        (b : Bool) → SameLists s idle (if b then reset_scheduled_processes_counters s else s)
    either_way true =
        let c = λ (n : ℕ). in_heap-reset n s.scheduled_processes in
        (
          ((λ n. omega (arith, u n, c n)), all_reset s.scheduled_processes hs, es),
          λ n. omega (arith, c n),
        )
    either_way false = ((u, hs, es), λ n. refl)

pub pop-IsTop : (tie : ℕ) (s : Scheduler) → IsLists idle s → IsTop s (pop tie s.scheduled_processes)
pop-IsTop tie s (u, hs, es) =
    both (pop tie s.scheduled_processes) (pop-Popped tie s.scheduled_processes)
      (pop-PoppedAll IsScheduled tie s.scheduled_processes hs)
  where
    both :
        (o : Option (SchedulerProcess × List SchedulerProcess))
        → Popped (max_counter s.scheduled_processes) s.scheduled_processes o
        → PoppedAll IsScheduled o
        → IsTop s o
    both none p all = tt
    both (some (q, qs)) (e, count) (h, all) = (count, all)

abbrev pub PassedOnce : Scheduler → Scheduler × Cpu × Bool → Type 0
PassedOnce s (s', c', ends) = SameLists s (runs_on c') s'

pub schedule_once-PassedOnce :
    (now : ClockTime) (tie : ℕ) (s : Scheduler) (c : Cpu)
    → IsLists (runs_on c) s
    → Post (PassedOnce s) (schedule_once now tie false s c)
unfolding schedule_once
schedule_once-PassedOnce now tie s c l =
    Post-bind _ (PassedOnce s) (ensure (is_none c.context)) _ (ensure-Post (is_none c.context))
      (λ u off.
        Post-bind (SameCpu c) (PassedOnce s) (push_cli c) _ (push_cli-SameCpu c) (λ c₁ same_cpu.
          let free = is_none-none c.context off in
          let (count, hs, es) = subst (λ o. IsLists (runs o c.process_id) s) free l in
          Post-bind (Woken now idle s) (PassedOnce s) (try_wake_waiting_processes now false s) _
            (try_wake_waiting_processes-Woken now idle s es hs)
            (λ s₁ (count₁, es₁, due, hs₁).
              let s₂ =
                if needs_reset s₁.scheduled_processes
                then reset_scheduled_processes_counters s₁
                else s₁ in
              let (l₂, count₂) =
                reset-SameLists s₁ ((λ n. omega (arith, count n, count₁ n)), hs₁, es₁) in
              Post-bind (Passed s₂) (PassedOnce s)
                (take_top (pop tie s₂.scheduled_processes) false s₂ c₁) _
                (take_top-Passed (pop tie s₂.scheduled_processes) s₂ c₁ (same_cpu.0 ∙ free) l₂
                  (pop-IsTop tie s₂ l₂))
                (λ r (l₃, count₃). (l₃, λ n. count₃ n ∙ (count₂ n ∙ count₁ n))))))
  where
    is_none-none : (o : Option ProcessContext) → is_none o ≡ true → o ≡ none
    is_none-none none h = refl
    is_none-none (some x) h = cc h
