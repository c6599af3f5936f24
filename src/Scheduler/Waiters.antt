-- ===== src/Scheduler/Waiters.antt =====
-- kernel/src/process/scheduler.rs: a parent that waits for its child gets the exit code of the child.
use emerald.Prelude.{
  ℕ, ◌%◌, ◌≡◌, refl, sym, ap, ◌∙◌, ◌⊎◌, inl, inr, List, [], ◌∷◌, All, Bool, true, false, ok, ◌>>=◌,
  ◌>>◌, ensure, Post, Post-bind, ◌==◌, if◌then◌else◌, Bool-cases, arith,
}
use mathlib.Core.Path.{subst}
use emerald.Scheduler.Process.{Process, is_none, get_mut}
use emerald.Scheduler.State.{
  running, scheduled, waiting_for_pid, waiting_for_time, SchedulerProcess,
}
use emerald.Scheduler.Wake.{sign_extend, add_to_parent, wake_waiter, see_exited, put_result}

abbrev pub In : {A : Type 0} → A → List A → Type 0
In a [] = ⊥
In a (x ∷ xs) = (x ≡ a) ⊎ In a xs

-- The process keeps its identity, its state and its registers.
abbrev pub Same : SchedulerProcess → SchedulerProcess → Type 0
Same p q =
    (q.process.id ≡ p.process.id) × (q.state ≡ p.state) × (q.process.context ≡ p.process.context)

pub add_to_parent-Same : (p : SchedulerProcess) (e : Process) → Post (Same p) (add_to_parent p e)
unfolding add_to_parent
add_to_parent-Same p e = elim (Bool-cases (e.parent_id == p.process.id)) [
  | inl b ↦ rw b (told (is_none (get_mut e.id p.process.children_exits)) _ refl refl)
  | inr b ↦ rw b (refl, refl, refl)
]
  where
    told :
        (b : Bool) (q : Process)
        → q.id ≡ p.process.id
        → q.context ≡ p.process.context
        → Post (Same p) (ensure b >> ok q >>= λ q. ok (record p { process = q }))
    told true q i c = (i, refl, c)
    told false q i c = tt

module _ (pid code : ℕ) where
  -- Whoever exited with the identity `pid` has the code.
  abbrev pub HasCode : Process → Type 0
  HasCode e = (e.id == pid) ≡ true → e.exit_code ≡ code

  -- A process that waits for `pid`, and one that has the answer.
  abbrev pub Waits : SchedulerProcess → Type 0
  Waits p = p.state ≡ waiting_for_pid pid

  abbrev pub HasAnswer : SchedulerProcess → Bool → Type 0
  HasAnswer p leaves = (leaves ≡ true) × (p.process.context.rax ≡ sign_extend code)

  abbrev pub Answered : SchedulerProcess → SchedulerProcess × Bool × List Process → Type 0
  Answered p (q, leaves, es) = (q.process.id ≡ p.process.id) × HasAnswer q leaves

  abbrev Woke : SchedulerProcess → Bool → Process → SchedulerProcess × Bool → Type 0
  Woke p r e (q, leaves) =
      (q.process.id ≡ p.process.id)
      × (q.state ≡ p.state)
      × ((HasAnswer p r ⊎ ((e.id == pid) ≡ true)) → HasAnswer q leaves)

  wake_waiter-Woke :
      (r : Bool) (p : SchedulerProcess) (e : Process)
      → Waits p
      → HasCode e
      → Post (Woke p r e) (wake_waiter r p e)
  unfolding wake_waiter
  wake_waiter-Woke r p e w h =
      subst
        (λ st. Post (Woke p r e) (elim st [
          | running ↦ ok (p, r)
          | scheduled ↦ ok (p, r)
          | waiting_for_pid pid ↦
              if pid == e.id
              then ensure (p.process.context.cs % 4 == 3) >> ok (put_result e.exit_code p, true)
              else ok (p, r)
          | waiting_for_time t ↦ ok (p, r)
        ]))
        (sym w)
        (elim (Bool-cases (pid == e.id)) [
          | inl b ↦ rw b (found b (p.process.context.cs % 4 == 3))
          | inr b ↦ rw b (
            refl,
            refl,
            λ k. elim k [ inl has ↦ has | inr same_id ↦ absurd (ground (arith, b, same_id)) ],
          )
        ])
    where
      found :
          (pid == e.id) ≡ true
          → (b : Bool) → Post (Woke p r e) (ensure b >> ok (put_result e.exit_code p, true))
      found b true = (refl, refl, λ k. (refl, ap sign_extend (h (ground (arith, b)))))
      found b false = tt

  pub see_exited-Answered :
      (r : Bool) (p : SchedulerProcess) (es : List Process)
      → Waits p
      → All HasCode es
      → HasAnswer p r ⊎ ((e : Process) × In e es × ((e.id == pid) ≡ true))
      → Post (Answered p) (see_exited r p es)
  unfolding see_exited
  see_exited-Answered r p [] w h k = elim k [
    | inl has ↦ (refl, has)
    | inr (e, within, same_id) ↦ absurd within
  ]
  see_exited-Answered r p (e ∷ es) w (h, hs) k =
      Post-bind (Same p) (Answered p) (add_to_parent p e) _ (add_to_parent-Same p e)
        (λ p' (i, s, c).
          Post-bind (Woke p' r e) (Answered p) (wake_waiter r p' e) _
            (wake_waiter-Woke r p' e (s ∙ w) h)
            (λ v (i', s', answers).
              Post-bind (Answered v.0) (Answered p) (see_exited v.1 v.0 es) _
                (see_exited-Answered v.1 v.0 es (s' ∙ (s ∙ w)) hs (next p' v c answers k))
                (λ u (i'', a). (i'' ∙ (i' ∙ i), a))))
    where
      next :
          (p' : SchedulerProcess) (v : SchedulerProcess × Bool)
          → p'.process.context ≡ p.process.context
          → ((HasAnswer p' r ⊎ ((e.id == pid) ≡ true)) → HasAnswer v.0 v.1)
          → HasAnswer p r ⊎ ((d : Process) × In d (e ∷ es) × ((d.id == pid) ≡ true))
          → HasAnswer v.0 v.1 ⊎ ((d : Process) × In d es × ((d.id == pid) ≡ true))
      next p' v c answers (inl (l, x)) = inl (answers (inl (l, ap (λ context. context.rax) c ∙ x)))
      next p' v c answers (inr (d, inl first, same_id)) =
          inl (answers (inr (subst (λ d. (d.id == pid) ≡ true) (sym first) same_id)))
      next p' v c answers (inr (d, inr later, same_id)) = inr (d, later, same_id)
