-- ===== src/Scheduler/Remains.antt =====
-- kernel/src/process/scheduler.rs: the exited processes that a pass over `running_waiting_procs` leaves
-- for later entries.
use emerald.Prelude.{
  ◌≡◌, sym, ap, ◌∙◌, inl, inr, List, [], ◌∷◌, All, Bool, true, false, not, ok, panic, Post,
  Post-bind, Post-both, ◌==◌, if◌then◌else◌,
}
use mathlib.Core.Path.{subst}
use emerald.Clock.Time.{ClockTime, is_before}
use emerald.Scheduler.Process.{Process}
use emerald.Scheduler.State.{
  ProcessState, running, scheduled, waiting_for_pid, waiting_for_time, SchedulerProcess,
}
use emerald.Scheduler.Wake.{add_to_parent, wake_waiter, see_exited, visit}
use emerald.Scheduler.Visits.{Stays, StaysWith, add_to_parent-Stays, wake_waiter-Stays}
use emerald.Scheduler.Waiters.{In}

-- What is still in a list of exited processes: `e`, and only processes with the property.
abbrev pub Remains : Process → (Process → Type 0) → List Process → Type 0
Remains e P es = In e es × All P es

abbrev pub RemainsOf :
    Process → (Process → Type 0) → SchedulerProcess × Bool × List Process → Type 0
RemainsOf e P (q, leaves, es) = Remains e P es

module _ (P : Process → Type 0) where
  abbrev AllOf : SchedulerProcess × Bool × List Process → Type 0
  AllOf (q, leaves, es) = All P es

  see_exited-All :
      (r : Bool) (p : SchedulerProcess) (es : List Process)
      → All P es
      → Post AllOf (see_exited r p es)
  unfolding see_exited
  see_exited-All r p [] h = tt
  see_exited-All r p (e ∷ es) (h, hs) =
      Post-bind (Stays p) AllOf (add_to_parent p e) _ (add_to_parent-Stays p e) (λ p' s.
        Post-bind (StaysWith p') AllOf (wake_waiter r p' e) _ (wake_waiter-Stays r p' e) (λ v s'.
          Post-bind AllOf AllOf (see_exited v.1 v.0 es) _ (see_exited-All v.1 v.0 es hs)
            (λ u all. kept (e.parent_id == p.process.id) u.2 all)))
    where
      kept : (b : Bool) (rest : List Process) → All P rest → All P (if b then rest else e ∷ rest)
      kept true rest all = all
      kept false rest all = (h, all)

abbrev pub Anything : Process → Type 0
Anything e = Unit

-- An exited process stays for the next entry, unless its parent has been seen.
module _ (d : Process) where
  abbrev InOf : SchedulerProcess × Bool × List Process → Type 0
  InOf (q, leaves, es) = In d es

  see_exited-In :
      (r : Bool) (p : SchedulerProcess) (es : List Process)
      → (d.parent_id == p.process.id) ≡ false
      → In d es
      → Post InOf (see_exited r p es)
  unfolding see_exited
  see_exited-In r p [] ne within = absurd within
  see_exited-In r p (e ∷ es) ne within =
      Post-bind (Stays p) InOf (add_to_parent p e) _ (add_to_parent-Stays p e) (λ p' (i, s).
        Post-bind (StaysWith p') InOf (wake_waiter r p' e) _ (wake_waiter-Stays r p' e)
          (λ v (i', s'). elim within [
            | inl first ↦
                Post-bind (AllOf Anything) InOf (see_exited v.1 v.0 es) _
                  (see_exited-All Anything v.1 v.0 es (every es))
                  (λ u all. rw (ap (λ x. x.parent_id == p.process.id) first ∙ ne) (inl first))
            | inr later ↦
                Post-bind InOf InOf (see_exited v.1 v.0 es) _
                  (see_exited-In v.1 v.0 es
                    (subst (λ k. (d.parent_id == k) ≡ false) (sym (i' ∙ i)) ne) later)
                  (λ u w. kept (e.parent_id == p.process.id) u.2 w)
          ]))
    where
      every : (es : List Process) → All Anything es
      every [] = tt
      every (e ∷ es) = (tt, every es)

      kept : (b : Bool) (rest : List Process) → In d rest → In d (if b then rest else e ∷ rest)
      kept true rest w = w
      kept false rest w = inr w

pub visit-Remains :
    (d : Process) (P : Process → Type 0) (now : ClockTime) (p : SchedulerProcess)
    (es : List Process)
    → (d.parent_id == p.process.id) ≡ false
    → Remains d P es
    → Post (RemainsOf d P) (visit now p es)
unfolding visit
visit-Remains d P now p es ne (within, all) = by_state p.state
  where
    seen : Post (RemainsOf d P) (see_exited false p es)
    seen =
        Post-both (InOf d) (AllOf P) (see_exited false p es) (see_exited-In d false p es ne within)
          (see_exited-All P false p es all)

    by_state :
        (st : ProcessState)
        → Post (RemainsOf d P) (elim st [
          | running ↦ see_exited false p es
          | scheduled ↦ panic
          | waiting_for_pid pid ↦ see_exited false p es
          | waiting_for_time t ↦ ok (p, not (is_before now t), es)
        ])
    by_state running = seen
    by_state scheduled = tt
    by_state (waiting_for_pid pid) = seen
    by_state (waiting_for_time t) = (within, all)
