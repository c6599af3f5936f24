-- ===== src/Sync/ReMutex/Exclusion.antt =====
-- A `ReMutex` of kernel/src/sync/spin/remutex.rs under any schedule of calls.
use emerald.Prelude.{
  ℕ, ◌≤◌, ◌<◌, ◌≡◌, ◌⊎◌, inl, inr, refl, sym, ap, ◌∙◌, none, List, [], ◌∷◌, arith, Post, Post-bind,
  Post-map, ◌==◌, if◌then◌else◌, ==-self, ==_of_ne, ℕ_discrete, Bool-cases,
}
use mathlib.Core.Path.{subst}
use emerald.Sync.Lock.{unlocked, write_locked_all}
use emerald.Sync.ReMutex.{
  between, Move, ReMutex, CpuThread, make_move, run_moves, new_remutex, fresh_cpus,
}
use emerald.Sync.ReMutex.Calls.{make_move-MovedInside, make_move-MovedOutside}
use emerald.Sync.ReMutex.Invariant.{
  Outside, Inside, MovedInside, MovedOutside, Inside-Free, Inside-guards,
}

-- One CPU has the lock and the others wait or do something else, or none has it.
abbrev pub IsShared : ReMutex × (ℕ → CpuThread) → Type 0
IsShared (s, cpus) =
    ((s.word ≡ unlocked) × (s.owner_cpu ≡ none) × ((i : ℕ) → Outside (cpus i)))
    ⊎ ((c : ℕ) × (s.word ≡ write_locked_all)
        × Inside s c (cpus c)
        × ((i : ℕ) → (i ≡ c → ⊥) → Outside (cpus i)))

abbrev moved : (ℕ → CpuThread) → ℕ → CpuThread → ℕ → CpuThread
moved cpus cpu t i = if i == cpu then t else cpus i

moved-Outside :
    (cpus : ℕ → CpuThread) (cpu : ℕ) (t : CpuThread) (i : ℕ)
    → Outside t
    → ((i ≡ cpu → ⊥) → Outside (cpus i))
    → Outside (moved cpus cpu t i)
moved-Outside cpus cpu t i out others = elim (Bool-cases (i == cpu)) [
  | inl e ↦ rw e out
  | inr e ↦ rw e (others (λ same. ground (arith, e, same)))
]

moved-Inside :
    (s : ReMutex) (cpus : ℕ → CpuThread) (cpu : ℕ) (t : CpuThread)
    → Inside s cpu t
    → Inside s cpu (moved cpus cpu t cpu)
moved-Inside s cpus cpu t i = rw (==-self cpu) i

IsShared-move :
    (m : Move) (cpu : ℕ) (s : ReMutex) (cpus : ℕ → CpuThread)
    → IsShared (s, cpus)
    → Post (λ r. IsShared (r.0, moved cpus cpu r.1)) (make_move m cpu s (cpus cpu))
IsShared-move m cpu s cpus (inl (w, o, out)) =
    Post-map (MovedOutside s cpu) _ (make_move m cpu s (cpus cpu))
      (make_move-MovedOutside m cpu s (cpus cpu) (inl (w, o)) (out cpu)) after
  where
    after : (r : ReMutex × CpuThread) → MovedOutside s cpu r → IsShared (r.0, moved cpus cpu r.1)
    after (s', t) (inl (e, out')) = inl (
      ap (λ x. x.word) e ∙ w,
      ap (λ x. x.owner_cpu) e ∙ o,
      λ i. moved-Outside cpus cpu t i out' (λ ne. out i),
    )
    after (s', t) (inr (w₀, w', i)) =
        inr (cpu, w', moved-Inside s' cpus cpu t i, λ j ne. rw (==_of_ne j cpu ne) (out j))
IsShared-move m cpu s cpus (inr (c, w, has, out)) = elim (ℕ_discrete cpu c) [
  | yes e ↦
      Post-map (MovedInside cpu) _ (make_move m cpu s (cpus cpu))
        (make_move-MovedInside m cpu s (cpus cpu) w (subst (λ x. Inside s x (cpus x)) (sym e) has))
        (λ r h. own r h e)
  | no ne ↦
      Post-map (MovedOutside s cpu) _ (make_move m cpu s (cpus cpu))
        (make_move-MovedOutside m cpu s (cpus cpu) (Inside-Free s c cpu (cpus c) w has ne)
          (out cpu ne))
        (λ r h. other r h ne)
]
  where
    own :
        (r : ReMutex × CpuThread) → MovedInside cpu r → cpu ≡ c → IsShared (r.0, moved cpus cpu r.1)
    own (s', t) (inl (w', i)) e = inr (
      cpu,
      w',
      moved-Inside s' cpus cpu t i,
      λ j ne. rw (==_of_ne j cpu ne) (out j (λ x. ne (x ∙ sym e))),
    )
    own (s', t) (inr (w', o', out')) e =
        inl (w', o', λ j. moved-Outside cpus cpu t j out' (λ ne. out j (λ x. ne (x ∙ sym e))))

    other :
        (r : ReMutex × CpuThread)
        → MovedOutside s cpu r
        → (cpu ≡ c → ⊥)
        → IsShared (r.0, moved cpus cpu r.1)
    other (s', t) (inl (e, out')) ne = inr (
      c,
      ap (λ x. x.word) e ∙ w,
      rw (==_of_ne c cpu (λ x. ne (sym x))) (subst (λ x. Inside x c (cpus c)) (sym e) has),
      λ j nj. moved-Outside cpus cpu t j out' (λ n. out j nj),
    )
    other (s', t) (inr (w₀, w', i)) ne = absurd (omega (arith, w, w₀))

run_moves-IsShared :
    (sched : List (ℕ × Move)) (s : ReMutex) (cpus : ℕ → CpuThread)
    → IsShared (s, cpus)
    → Post IsShared (run_moves sched s cpus)
unfolding run_moves
run_moves-IsShared [] s cpus h = h
run_moves-IsShared ((cpu, m) ∷ rest) s cpus h =
    Post-bind (λ r. IsShared (r.0, moved cpus cpu r.1)) IsShared (make_move m cpu s (cpus cpu)) _
      (IsShared-move m cpu s cpus h) (λ r k. run_moves-IsShared rest r.0 (moved cpus cpu r.1) k)

-- Two CPUs with guards are the same one, and between its calls `lock_count` counts its guards; and
-- where no CPU has a guard and all are between their calls, the lock is free.
abbrev pub ReExcludes : ReMutex × (ℕ → CpuThread) → Type 0
ReExcludes (s, cpus) =
    ((i j : ℕ) → 0 < (cpus i).guards → 0 < (cpus j).guards → i ≡ j)
    × ((i : ℕ)
        → 0 < (cpus i).guards
        → (cpus i).place ≡ between
        → (s.lock_count ≡ (cpus i).guards) × ((cpus i).guards ≤ (cpus i).n_cli))
    × (((i : ℕ) → ((cpus i).guards ≡ 0) × ((cpus i).place ≡ between)) → s.word ≡ unlocked)

IsShared-ReExcludes : (r : ReMutex × (ℕ → CpuThread)) → IsShared r → ReExcludes r
IsShared-ReExcludes (s, cpus) (inl (w, o, out)) = (
  λ i j a b. absurd (omega (arith, (out i).1)),
  λ i a e. absurd (omega (arith, (out i).1)),
  λ h. w,
)
IsShared-ReExcludes (s, cpus) (inr (c, w, has, out)) = (
  λ i j a b. is_c i a ∙ sym (is_c j b),
  λ i a e. counted i (is_c i a) e,
  λ h. absurd (omega (arith, (Inside-guards s c (cpus c) has (h c).1).0, (h c).0)),
)
  where
    is_c : (i : ℕ) → 0 < (cpus i).guards → i ≡ c
    is_c i a = elim (ℕ_discrete i c) [ yes e ↦ e | no ne ↦ absurd (omega (arith, (out i ne).1)) ]

    counted :
        (i : ℕ)
        → i ≡ c
        → (cpus i).place ≡ between
        → (s.lock_count ≡ (cpus i).guards) × ((cpus i).guards ≤ (cpus i).n_cli)
    counted i e at_rest =
        let k = Inside-guards s i (cpus i) (subst (λ x. Inside s x (cpus x)) (sym e) has) at_rest in
        (k.1, k.2)

-- From a new `ReMutex`, in every state that a schedule of locks, tries and drops comes to, at most
-- one CPU has guards, and between its calls `lock_count` is their number and `pop_cli` is owed for
-- each of them; and once all CPUs are out of their calls without a guard, the lock is free.
pub run_moves-ReExcludes :
    (sched : List (ℕ × Move)) → Post ReExcludes (run_moves sched new_remutex fresh_cpus)
unfolding new_remutex
run_moves-ReExcludes sched =
    Post-map IsShared ReExcludes (run_moves sched new_remutex fresh_cpus)
      (run_moves-IsShared sched new_remutex fresh_cpus
        (inl (refl, refl, λ i. (tt, refl, omega arith))))
      IsShared-ReExcludes
