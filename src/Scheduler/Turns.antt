-- ===== src/Scheduler/Turns.antt =====
-- kernel/src/process/scheduler.rs: the process that a pass of `schedule` takes.
use emerald.Prelude.{
  ℕ, ◌+◌, ◌-◌, ◌≤◌, ◌≡◌, refl, ap, ◌∙◌, ◌⊎◌, inl, inr, Option, none, some, List, [], true, false,
  ==-self, arith, ok, bind-ok, ensure-ok, Post,
}
use mathlib.Core.Path.{subst}
use emerald.Clock.Rtc.{checked_minus}
use emerald.Clock.Time.{ClockTime}
use emerald.Scheduler.Process.{
  PriorityLevel, very_low, low, normal, high, very_high, to_u64, insert, get_mut, is_none,
}
use emerald.Scheduler.State.{SchedulerProcess, Scheduler, max_counter, pop, is_scheduled, running}
use emerald.Scheduler.Wake.{try_wake_waiting_processes}
use emerald.Scheduler.Processor.{Cpu, push_cli, pop_cli}
use emerald.Scheduler.Calls.{start, take_top, schedule_once}
use emerald.Scheduler.Census.{one, in_heap, Popped, pop-Popped, PoppedAll, pop-PoppedAll}
use emerald.Scheduler.Wakes.{IsScheduled, Woken, try_wake_waiting_processes-Woken}
use emerald.Scheduler.Entries.{get_mut-fresh, get_mut-insert}
use emerald.Scheduler.Invariant.{IsLists}
use emerald.Scheduler.Leaving.{idle}
use emerald.Scheduler.Passes.{top-absent, reset-SameLists}
use emerald.Scheduler.Switch.{CanPush, pushed, push_cli-pushed, between, popped, pop_cli-popped}
use emerald.Scheduler.Tops.{pop-none, counted, counted-enough}

decrement-le : (l : PriorityLevel) → 6 - to_u64 l ≤ 5
decrement-le very_low = omega arith
decrement-le low = omega arith
decrement-le normal = omega arith
decrement-le high = omega arith
decrement-le very_high = omega arith

start-returns :
    (top : SchedulerProcess) (heap : List SchedulerProcess) (s : Scheduler) (c : Cpu)
    → 5 ≤ top.priority_counter
    → let counter = top.priority_counter - (6 - to_u64 top.process.priority) in
      start top heap s c
      ≡ ok (
        record s {
          scheduled_processes = heap;
          max_priority = counter;
          running_waiting_procs =
              insert top.process.id
                (record top { state = running; priority_counter = counter })
                s.running_waiting_procs;
        },
        record c {
          process_id = top.process.id;
          context = some top.process.context;
          scheduling = true;
        },
      )
unfolding start
start-returns top heap s c h =
    let d = 6 - to_u64 top.process.priority in
    bind-ok (checked_minus top.priority_counter d) (top.priority_counter - d) _
      (fits top.priority_counter d (omega (arith, h, decrement-le top.process.priority)))
  where
    fits : (a b : ℕ) → b ≤ a → checked_minus a b ≡ ok (a - b)
    fits a b h = ground (arith, h)

-- What a pass takes: a process whose counter is the greatest, which then runs on the processor, or
-- nothing, where nothing is scheduled.
abbrev pub Took : Scheduler → Scheduler → Cpu → Type 0
Took s s' c' =
    ((s.scheduled_processes ≡ []) × (c'.context ≡ none))
    ⊎ ((top : SchedulerProcess) × (top.priority_counter ≡ max_counter s.scheduled_processes)
        × (c'.process_id ≡ top.process.id)
        × (c'.context ≡ some top.process.context)
        × (get_mut top.process.id s'.running_waiting_procs
            ≡ some (record top {
              state = running;
              priority_counter = top.priority_counter - (6 - to_u64 top.process.priority);
            })))

take_top-Took :
    (tie : ℕ) (s : Scheduler) (c : Cpu)
    → IsLists idle s
    → c.context ≡ none
    → CanPush c
    → (s.scheduled_processes ≡ []) ⊎ (5 ≤ max_counter s.scheduled_processes)
    → (s' : Scheduler) × (c' : Cpu) × (take_top (pop tie s.scheduled_processes) false s (pushed c)
        ≡ ok (s', c'))
      × Took s s' c'
unfolding take_top
take_top-Took tie s c (u, hs, es) off can enough =
    go (pop tie s.scheduled_processes) refl (pop-Popped tie s.scheduled_processes)
      (pop-PoppedAll IsScheduled tie s.scheduled_processes hs)
  where
    room :
        (top : SchedulerProcess) (heap : List SchedulerProcess)
        → ((n : ℕ) → one n top + in_heap n heap ≡ in_heap n s.scheduled_processes)
        → 5 ≤ max_counter s.scheduled_processes
    room top heap count = elim enough [
      | inl nil ↦
          let pid = top.process.id in
          absurd (ground (arith, count pid, ap (in_heap pid) nil, ==-self pid))
      | inr h ↦ h
    ]

    go :
        (o : Option (SchedulerProcess × List SchedulerProcess))
        → pop tie s.scheduled_processes ≡ o
        → Popped (max_counter s.scheduled_processes) s.scheduled_processes o
        → PoppedAll IsScheduled o
        → (s' : Scheduler) × (c' : Cpu) × (take_top o false s (pushed c) ≡ ok (s', c'))
          × Took s s' c'
    go none e p all = (s, pushed c, refl, inl (pop-none tie s.scheduled_processes e, off))
    go (some (top, heap)) e (top_max, count) (is, all) =
        let pid = top.process.id in
        let counter = top.priority_counter - (6 - to_u64 top.process.priority) in
        let top' = record top { state = running; priority_counter = counter } in
        let s' = record s {
          scheduled_processes = heap;
          max_priority = counter;
          running_waiting_procs = insert pid top' s.running_waiting_procs;
        } in
        let d = record c {
          process_id = pid;
          context = some top.process.context;
          scheduling = true;
        } in
        (
          s',
          popped c d,
          ensure-ok (is_scheduled top.state) _ (ap is_scheduled is)
              ∙ bind-ok (start top heap s (pushed c)) (s', between c d) _
                  (start-returns top heap s (pushed c)
                    (omega (arith, top_max, room top heap count)))
              ∙ bind-ok (pop_cli (between c d)) (popped c d) _ (pop_cli-popped c d can),
          inr (
            top,
            top_max,
            refl,
            refl,
            get_mut-insert pid top' s.running_waiting_procs (
                get_mut-fresh idle pid s.running_waiting_procs
                  (top-absent top heap s (u, hs, es) (count, all)) es),
          ),
        )

-- Where the lists are sound, the processor has no process and its interrupts can be counted, a pass of
-- `schedule` that wakes the waiting processes without a panic returns, and the loop goes on. It takes
-- a process whose priority counter is the greatest, once the counters are reset where they were low,
-- subtracts 1 to 5 without an underflow, and makes it the current one; it takes none only where none is
-- scheduled.
pub schedule_once-Took :
    (now : ClockTime) (tie : ℕ) (s woken : Scheduler) (c : Cpu)
    → IsLists idle s
    → c.context ≡ none
    → CanPush c
    → try_wake_waiting_processes now false s ≡ ok woken
    → (s' : Scheduler) × (c' : Cpu) × (schedule_once now tie false s c ≡ ok (s', c', false))
      × Took (counted woken) s' c'
unfolding schedule_once
schedule_once-Took now tie s woken c (u, hs, es) off can woke =
    let (count, es', due, hs') =
      subst (Post (Woken now idle s)) woke (try_wake_waiting_processes-Woken now idle s es hs) in
    let (l, same_count) = reset-SameLists woken ((λ n. omega (arith, u n, count n)), hs', es') in
    let (s', c', took, what) =
      take_top-Took tie (counted woken) c l off can (counted-enough woken) in
    (
      s',
      c',
      ensure-ok (is_none c.context) _ (ap is_none off)
          ∙ bind-ok (push_cli c) (pushed c) _ (push_cli-pushed c can)
          ∙ bind-ok (try_wake_waiting_processes now false s) woken _ woke
          ∙ bind-ok
              (take_top (pop tie (counted woken).scheduled_processes) false (counted woken)
                (pushed c))
              (s', c') _ took,
      what,
    )
