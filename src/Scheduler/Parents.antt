-- ===== src/Scheduler/Parents.antt =====
-- kernel/src/process/scheduler.rs: the exited processes that a pass over `running_waiting_procs` leaves
-- for later entries, and the parent that waits among these.
use emerald.Prelude.{
  ℕ, ◌≤◌, ◌≡◌, refl, sym, ap, ◌∙◌, ◌⊎◌, inl, inr, List, [], ◌∷◌, All, Bool, true, false, not, ok,
  panic, Post, Post-bind, ◌==◌, ==-self, if◌then◌else◌, arith,
}
use mathlib.Core.Path.{subst}
use emerald.Clock.Time.{ClockTime, is_before}
use emerald.Scheduler.Process.{Process, Map}
use emerald.Scheduler.State.{
  running, scheduled, waiting_for_pid, waiting_for_time, SchedulerProcess, Scheduler,
  reschedule_process,
}
use emerald.Scheduler.Wake.{
  sign_extend, add_to_parent, see_exited, visit, extract_if, reschedule_all, tell_scheduled,
  tell_all, try_wake_waiting_processes,
}
use emerald.Scheduler.Census.{one, in_map}
use emerald.Scheduler.Visits.{IsEntry, Extracted, extract_if-Extracted}
use emerald.Scheduler.Invariant.{IsLists}
use emerald.Scheduler.Leaving.{idle}
use emerald.Scheduler.Waiters.{
  In, Same, add_to_parent-Same, HasCode, Waits, Answered, see_exited-Answered,
}
use emerald.Scheduler.Remains.{Remains, RemainsOf, visit-Remains}

-- A process of the list has the identity of `p`, and the exit code as its result.
abbrev pub Delivered : ℕ → SchedulerProcess → List SchedulerProcess → Type 0
Delivered code p ps =
    (q : SchedulerProcess) × In q ps
    × (q.process.id ≡ p.process.id)
    × (q.process.context.rax ≡ sign_extend code)

abbrev pub DeliveredOf :
    ℕ → SchedulerProcess → List SchedulerProcess × Map SchedulerProcess × List Process → Type 0
DeliveredOf code p (ps, m, es) = Delivered code p ps

one_self : (p : SchedulerProcess) → one p.process.id p ≡ 1
one_self p = rw (==-self p.process.id) refl

in_map-In :
    (k : ℕ) (p : SchedulerProcess) (m : Map SchedulerProcess)
    → In (k, p) m
    → 1 ≤ in_map p.process.id m
in_map-In k p [] within = absurd within
in_map-In k p ((j, q) ∷ m) (inl first) =
    omega (arith, one_self p, ap (λ e. one p.process.id e.1) first)
in_map-In k p ((j, q) ∷ m) (inr later) = omega (arith, in_map-In k p m later)

visit-Answered :
    (now : ClockTime) (pid code : ℕ) (d : Process) (p : SchedulerProcess) (es : List Process)
    → Waits pid code p
    → (d.id == pid) ≡ true
    → Remains d (HasCode pid code) es
    → Post (Answered pid code p) (visit now p es)
unfolding visit
visit-Answered now pid code d p es w same_id (within, all) =
    subst
      (λ st. Post (Answered pid code p) (elim st [
        | running ↦ see_exited false p es
        | scheduled ↦ panic
        | waiting_for_pid pid ↦ see_exited false p es
        | waiting_for_time t ↦ ok (p, not (is_before now t), es)
      ]))
      (sym w) (see_exited-Answered pid code false p es w all (inr (d, within, same_id)))

module _ (now : ClockTime) (pid code : ℕ) (d : Process) (k : ℕ) (p : SchedulerProcess) where
  extract_if-Delivered :
      (m : Map SchedulerProcess) (es : List Process)
      → Waits pid code p
      → (d.id == pid) ≡ true
      → d.parent_id ≡ p.process.id
      → Remains d (HasCode pid code) es
      → All (IsEntry idle) m
      → In (k, p) m
      → in_map p.process.id m ≤ 1
      → Post (DeliveredOf code p) (extract_if now m es)
  unfolding extract_if
  extract_if-Delivered [] es w same_id child r h within alone = absurd within
  extract_if-Delivered ((j, q) ∷ m) es w same_id child r (h, hs) (inl first) alone =
      Post-bind (Answered pid code p) (DeliveredOf code p) (visit now q es) _
        (subst (λ e. Post (Answered pid code p) (visit now e.1 es)) (sym first)
          (visit-Answered now pid code d p es w same_id r))
        (λ v (i, (l, x)).
          Post-bind (Extracted now idle m) (DeliveredOf code p) (extract_if now m v.2) _
            (extract_if-Extracted now idle m v.2 hs) (λ u y. rw l (v.0, inl refl, i, x)))
  extract_if-Delivered ((j, q) ∷ m) es w same_id child r (h, hs) (inr later) alone =
      Post-bind (RemainsOf d (HasCode pid code)) (DeliveredOf code p) (visit now q es) _
        (visit-Remains d (HasCode pid code) now q es other r)
        (λ v r'.
          Post-bind (DeliveredOf code p) (DeliveredOf code p) (extract_if now m v.2) _
            (extract_if-Delivered m v.2 w same_id child r' hs later (omega (arith, alone)))
            (λ u (t, within, i, x). deeper v.1 v.0 u t within i x))
    where
      other : (d.parent_id == q.process.id) ≡ false
      other = ground (arith, child, alone, in_map-In k p m later)

      deeper :
          (b : Bool) (v : SchedulerProcess)
          (u : List SchedulerProcess × Map SchedulerProcess × List Process) (t : SchedulerProcess)
          → In t u.0
          → t.process.id ≡ p.process.id
          → t.process.context.rax ≡ sign_extend code
          → DeliveredOf code p (if b then (v ∷ u.0, u.1, u.2) else (u.0, (j, v) ∷ u.1, u.2))
      deeper true v u t within i x = (t, inr within, i, x)
      deeper false v u t within i x = (t, within, i, x)

-- A process that is rescheduled, or to which the exit of a child is told, keeps its registers.
Delivered-tell :
    (code : ℕ) (p : SchedulerProcess) (e : Process) (ps : List SchedulerProcess)
    → Delivered code p ps
    → Post (Delivered code p) (tell_scheduled e ps)
unfolding tell_scheduled
Delivered-tell code p e [] (q, within, i, x) = absurd within
Delivered-tell code p e (r ∷ ps) (q, inl first, i, x) =
    Post-bind (Same r) (Delivered code p) (add_to_parent r e) _ (add_to_parent-Same r e)
      (λ r' (i', s, c).
        Post-bind (λ rest. Unit) (Delivered code p) (tell_scheduled e ps) _ (tells ps)
          (λ rest u. (
            r',
            inl refl,
            i' ∙ (ap (λ a. a.process.id) first ∙ i),
            ap (λ a. a.rax) c ∙ (ap (λ a. a.process.context.rax) first ∙ x),
          )))
  where
    tells : (ps : List SchedulerProcess) → Post (λ rest. Unit) (tell_scheduled e ps)
    tells [] = tt
    tells (r ∷ ps) =
        Post-bind (Same r) (λ rest. Unit) (add_to_parent r e) _ (add_to_parent-Same r e)
          (λ r' s.
            Post-bind (λ rest. Unit) (λ rest. Unit) (tell_scheduled e ps) _ (tells ps)
              (λ rest u. tt))
Delivered-tell code p e (r ∷ ps) (q, inr later, i, x) =
    Post-bind (Same r) (Delivered code p) (add_to_parent r e) _ (add_to_parent-Same r e) (λ r' s.
      Post-bind (Delivered code p) (Delivered code p) (tell_scheduled e ps) _
        (Delivered-tell code p e ps (q, later, i, x))
        (λ rest (t, within, j, y). (t, inr within, j, y)))

Delivered-tell_all :
    (code : ℕ) (p : SchedulerProcess) (es : List Process) (ps : List SchedulerProcess)
    → Delivered code p ps
    → Post (Delivered code p) (tell_all es ps)
unfolding tell_all
Delivered-tell_all code p [] ps h = h
Delivered-tell_all code p (e ∷ es) ps h =
    Post-bind (Delivered code p) (Delivered code p) (tell_scheduled e ps) _
      (Delivered-tell code p e ps h) (λ qs k. Delivered-tell_all code p es qs k)

In-reschedule :
    (code : ℕ) (p : SchedulerProcess) (ps : List SchedulerProcess) (s : Scheduler)
    → Delivered code p ps ⊎ Delivered code p s.scheduled_processes
    → Delivered code p (reschedule_all false ps s).scheduled_processes
unfolding reschedule_process
In-reschedule code p [] s (inl (q, within, i, x)) = absurd within
In-reschedule code p [] s (inr d) = d
In-reschedule code p (r ∷ ps) s (inl (q, inl first, i, x)) =
    In-reschedule code p ps (reschedule_process false r s) (
      inr
        (_, inl refl, ap (λ a. a.process.id) first ∙ i, ap (λ a. a.process.context.rax) first ∙ x))
In-reschedule code p (r ∷ ps) s (inl (q, inr later, i, x)) =
    In-reschedule code p ps (reschedule_process false r s) (inl (q, later, i, x))
In-reschedule code p (r ∷ ps) s (inr (q, within, i, x)) =
    In-reschedule code p ps (reschedule_process false r s) (inr (q, inr within, i, x))

abbrev pub DeliveredTo : ℕ → SchedulerProcess → Scheduler → Type 0
DeliveredTo code p s = Delivered code p s.scheduled_processes

-- A parent that waits for its child is woken once the child has exited. Where the lists are sound, no
-- process runs, a process `p` waits for `pid`, a child of `p` with that identity has exited, and all
-- that exited with it have the same code: then after `try_wake_waiting_processes`, which is not in
-- a shutdown and does not panic, `p` is scheduled, with the exit code as the result of its call.
pub try_wake_waiting_processes-Delivered :
    (now : ClockTime) (pid code : ℕ) (d : Process) (k : ℕ) (p : SchedulerProcess) (s : Scheduler)
    → IsLists idle s
    → In (k, p) s.running_waiting_procs
    → p.state ≡ waiting_for_pid pid
    → In d s.exited_processes
    → (d.id == pid) ≡ true
    → d.parent_id ≡ p.process.id
    → All (HasCode pid code) s.exited_processes
    → Post (DeliveredTo code p) (try_wake_waiting_processes now false s)
unfolding try_wake_waiting_processes
try_wake_waiting_processes-Delivered now pid code d k p s (u, hs, es) entry w exited same_id child
      all =
    Post-bind (DeliveredOf code p) (DeliveredTo code p)
      (extract_if now s.running_waiting_procs s.exited_processes) _
      (extract_if-Delivered now pid code d k p s.running_waiting_procs s.exited_processes w same_id
        child (exited, all) es entry (omega (arith, u p.process.id)))
      (λ x h.
        let s' =
          reschedule_all false x.0
            (record s { running_waiting_procs = x.1; exited_processes = x.2 }) in
        Post-bind (Delivered code p) (DeliveredTo code p)
          (tell_all s'.exited_processes s'.scheduled_processes) _
          (Delivered-tell_all code p s'.exited_processes s'.scheduled_processes
            (In-reschedule code p x.0 _ (inl h)))
          (λ qs k. k))
