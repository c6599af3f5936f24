-- ===== src/Scheduler/Visits.antt =====
-- kernel/src/process/scheduler.rs: what `try_wake_waiting_processes` does with an entry.
use emerald.Prelude.{
  ℕ, ◌+◌, ◌%◌, ◌≡◌, inl, inr, refl, sym, ap, ◌∙◌, List, [], ◌∷◌, All, Bool, true, false, not, ok,
  panic, ◌>>=◌, ◌>>◌, ensure, Post, Post-bind, Post-map, ◌==◌, if◌then◌else◌, Bool-cases, arith,
}
use mathlib.Core.Path.{subst}
use mathlib.Core.Bool.{true≢false}
use emerald.Clock.Time.{ClockTime, is_before}
use emerald.Scheduler.Process.{Process, Map, is_none, get_mut}
use emerald.Scheduler.State.{
  ProcessState, running, scheduled, waiting_for_pid, waiting_for_time, SchedulerProcess, is_running,
  is_scheduled,
}
use emerald.Scheduler.Wake.{add_to_parent, wake_waiter, see_exited, visit, extract_if, put_result}
use emerald.Scheduler.Census.{same, in_heap, in_map}

-- A process keeps its identity and its state.
abbrev pub Stays : SchedulerProcess → SchedulerProcess → Type 0
Stays p q = (q.process.id ≡ p.process.id) × (q.state ≡ p.state)

pub Stays-trans : (p q r : SchedulerProcess) → Stays p q → Stays q r → Stays p r
Stays-trans p q r (i, s) (j, t) = (j ∙ i, t ∙ s)

pub add_to_parent-Stays : (p : SchedulerProcess) (e : Process) → Post (Stays p) (add_to_parent p e)
unfolding add_to_parent
add_to_parent-Stays p e = elim (Bool-cases (e.parent_id == p.process.id)) [
  | inl b ↦ rw b (told (is_none (get_mut e.id p.process.children_exits)) _ refl)
  | inr b ↦ rw b (refl, refl)
]
  where
    told :
        (b : Bool) (q : Process)
        → q.id ≡ p.process.id
        → Post (Stays p) (ensure b >> ok q >>= λ q. ok (record p { process = q }))
    told true q h = (h, refl)
    told false q h = tt

abbrev pub StaysWith : SchedulerProcess → SchedulerProcess × Bool → Type 0
StaysWith p (q, leaves) = Stays p q

abbrev pub StaysAmong : SchedulerProcess → SchedulerProcess × Bool × List Process → Type 0
StaysAmong p (q, leaves, es) = Stays p q

-- The waiter keeps its identity, its state and its priority.
pub wake_waiter-Stays :
    (r : Bool) (p : SchedulerProcess) (e : Process) → Post (StaysWith p) (wake_waiter r p e)
unfolding wake_waiter
wake_waiter-Stays r p e = by_state p.state
  where
    woken : (b : Bool) → Post (StaysWith p) (ensure b >> ok (put_result e.exit_code p, true))
    woken true = (refl, refl)
    woken false = tt

    by_state :
        (st : ProcessState)
        → Post (StaysWith p) (elim st [
          | running ↦ ok (p, r)
          | scheduled ↦ ok (p, r)
          | waiting_for_pid pid ↦
              if pid == e.id
              then ensure (p.process.context.cs % 4 == 3) >> ok (put_result e.exit_code p, true)
              else ok (p, r)
          | waiting_for_time t ↦ ok (p, r)
        ])
    by_state running = (refl, refl)
    by_state scheduled = (refl, refl)
    by_state (waiting_for_time t) = (refl, refl)
    by_state (waiting_for_pid pid) = elim (Bool-cases (pid == e.id)) [
      | inl b ↦ rw b (woken (p.process.context.cs % 4 == 3))
      | inr b ↦ rw b (refl, refl)
    ]

pub see_exited-Stays :
    (r : Bool) (p : SchedulerProcess) (es : List Process) → Post (StaysAmong p) (see_exited r p es)
unfolding see_exited
see_exited-Stays r p [] = (refl, refl)
see_exited-Stays r p (e ∷ es) =
    Post-bind (Stays p) (StaysAmong p) (add_to_parent p e) _ (add_to_parent-Stays p e) (λ p' h.
      Post-bind (StaysWith p') (StaysAmong p) (wake_waiter r p' e) _ (wake_waiter-Stays r p' e)
        (λ w h'.
          Post-bind (StaysAmong w.0) (StaysAmong p) (see_exited w.1 w.0 es) _
            (see_exited-Stays w.1 w.0 es)
            (λ v h''. Stays-trans p w.0 v.0 (Stays-trans p p' w.0 h h') h'')))

-- An entry of `running_waiting_procs`: its key is the identity of the process, and the process runs
-- exactly where `runs` holds of the key.
abbrev pub IsEntry : (ℕ → Bool) → ℕ × SchedulerProcess → Type 0
IsEntry runs (k, p) =
    (p.process.id ≡ k) × (is_running p.state ≡ runs k) × (is_scheduled p.state ≡ false)

-- A process does not sleep, or its time has not come.
abbrev pub NotDue : ClockTime → ProcessState → Type 0
NotDue now (waiting_for_time t) = is_before now t ≡ true
NotDue now _ = Unit

abbrev pub EntryNotDue : ClockTime → ℕ × SchedulerProcess → Type 0
EntryNotDue now (k, p) = NotDue now p.state

pub Stays-IsEntry :
    (runs : ℕ → Bool) (k : ℕ) (p q : SchedulerProcess)
    → Stays p q
    → IsEntry runs (k, p)
    → IsEntry runs (k, q)
Stays-IsEntry runs k p q (i, s) (x, y, z) = (i ∙ x, ap is_running s ∙ y, ap is_scheduled s ∙ z)

pub not-false : (b : Bool) → not b ≡ false → b ≡ true
not-false true h = refl
not-false false h = absurd (true≢false h)

-- A process that is seen is the same one, and where it stays, it is not due.
abbrev pub Visited : ClockTime → SchedulerProcess → SchedulerProcess × Bool × List Process → Type 0
Visited now p (q, leaves, es) = Stays p q × (leaves ≡ false → NotDue now q.state)

pub visit-Visited :
    (now : ClockTime) (p : SchedulerProcess) (es : List Process)
    → Post (Visited now p) (visit now p es)
unfolding visit
visit-Visited now p es = by_state p.state refl
  where
    seen : NotDue now p.state → Post (Visited now p) (see_exited false p es)
    seen h =
        Post-map (StaysAmong p) (Visited now p) (see_exited false p es)
          (see_exited-Stays false p es) (λ w k. (k, λ l. subst (NotDue now) (sym k.1) h))

    by_state :
        (st : ProcessState)
        → p.state ≡ st
        → Post (Visited now p) (elim st [
          | running ↦ see_exited false p es
          | scheduled ↦ panic
          | waiting_for_pid pid ↦ see_exited false p es
          | waiting_for_time t ↦ ok (p, not (is_before now t), es)
        ])
    by_state running e = seen (subst (NotDue now) (sym e) tt)
    by_state scheduled e = tt
    by_state (waiting_for_pid pid) e = seen (subst (NotDue now) (sym e) tt)
    by_state (waiting_for_time t) e =
        ((refl, refl), λ l. subst (NotDue now) (sym e) (not-false (is_before now t) l))

-- What `extract_if` takes and what it leaves.
abbrev pub Extracted :
    ClockTime
    → (ℕ → Bool)
    → Map SchedulerProcess
    → List SchedulerProcess × Map SchedulerProcess × List Process
    → Type 0
Extracted now runs m (ps, m', es) =
    ((n : ℕ) → in_heap n ps + in_map n m' ≡ in_map n m)
    × All (IsEntry runs) m'
    × All (EntryNotDue now) m'

pub extract_if-Extracted :
    (now : ClockTime) (runs : ℕ → Bool) (m : Map SchedulerProcess) (es : List Process)
    → All (IsEntry runs) m
    → Post (Extracted now runs m) (extract_if now m es)
unfolding extract_if
extract_if-Extracted now runs [] es h = ((λ n. refl), tt, tt)
extract_if-Extracted now runs ((k, p) ∷ m) es (h, hs) =
    Post-bind (Visited now p) (Extracted now runs ((k, p) ∷ m)) (visit now p es) _
      (visit-Visited now p es)
      (λ w v.
        Post-bind (Extracted now runs m) (Extracted now runs ((k, p) ∷ m)) (extract_if now m w.2) _
          (extract_if-Extracted now runs m w.2 hs) (λ r x. sorted w.0 w.1 r v x))
  where
    sorted :
        (q : SchedulerProcess) (leaves : Bool)
        (r : List SchedulerProcess × Map SchedulerProcess × List Process)
        → Stays p q × (leaves ≡ false → NotDue now q.state)
        → Extracted now runs m r
        → Extracted now runs
            ((k, p) ∷ m)
            (if leaves then (q ∷ r.0, r.1, r.2) else (r.0, (k, q) ∷ r.1, r.2))
    sorted q true r (s, d) (c, e, l) = ((λ n. omega (arith, c n, ap (same n) s.0)), e, l)
    sorted q false r (s, d) (c, e, l) =
        ((λ n. omega (arith, c n, ap (same n) s.0)), (Stays-IsEntry runs k p q s h, e), (d refl, l))
