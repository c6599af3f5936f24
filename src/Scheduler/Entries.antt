-- ===== src/Scheduler/Entries.antt =====
-- kernel/src/process/scheduler.rs: the entries of `running_waiting_procs` as processes come, go and
-- change.
use emerald.Prelude.{
  ℕ, ◌≤◌, ◌≡◌, refl, sym, ◌∙◌, inl, inr, none, some, [], ◌∷◌, All, Bool, true, false, ◌==◌, ==-self,
  ==_iff, Bool-cases, ltb, arith,
}
use mathlib.Core.Path.{subst}
use emerald.Scheduler.Process.{Map, get_mut, insert, write, remove}
use emerald.Scheduler.State.{SchedulerProcess}
use emerald.Scheduler.Census.{same, in_map, found, get_mut-here, get_mut-later}
use emerald.Scheduler.Visits.{IsEntry}

-- Two tests on the current process agree on all other keys.
abbrev pub Agree : ℕ → (ℕ → Bool) → (ℕ → Bool) → Type 0
Agree k runs runs' = (j : ℕ) → (k == j) ≡ false → runs' j ≡ runs j

IsEntry-other :
    (runs runs' : ℕ → Bool) (k j : ℕ) (p : SchedulerProcess)
    → Agree k runs runs'
    → (k == j) ≡ false
    → IsEntry runs (j, p)
    → IsEntry runs' (j, p)
IsEntry-other runs runs' k j p agree ne (i, r, s) = (i, r ∙ sym (agree j ne), s)

one-other : (k j i : ℕ) → i ≡ j → same k i ≡ 0 → (k == j) ≡ false
one-other k j i e h = ground (arith, e, h)

one-same : (k j i : ℕ) → i ≡ j → (k == j) ≡ true → same k i ≡ 1
one-same k j i e h = ground (arith, e, h)

pub entries-other :
    (runs runs' : ℕ → Bool) (k : ℕ) (m : Map SchedulerProcess)
    → Agree k runs runs'
    → in_map k m ≡ 0
    → All (IsEntry runs) m
    → All (IsEntry runs') m
entries-other runs runs' k [] agree z h = tt
entries-other runs runs' k ((j, p) ∷ m) agree z (h, hs) = (
  IsEntry-other runs runs' k j p agree (one-other k j p.process.id h.0 (omega (arith, z))) h,
  entries-other runs runs' k m agree (omega (arith, z)) hs,
)

pub get_mut-fresh :
    (runs : ℕ → Bool) (k : ℕ) (m : Map SchedulerProcess)
    → in_map k m ≡ 0
    → All (IsEntry runs) m
    → get_mut k m ≡ none
get_mut-fresh runs k [] z h = refl
get_mut-fresh runs k ((j, p) ∷ m) z (h, hs) =
    rw (one-other k j p.process.id h.0 (omega (arith, z)))
      (get_mut-fresh runs k m (omega (arith, z)) hs)

pub get_mut-IsEntry :
    (runs : ℕ → Bool) (k : ℕ) (p : SchedulerProcess) (m : Map SchedulerProcess)
    → get_mut k m ≡ some p
    → All (IsEntry runs) m
    → IsEntry runs (k, p)
get_mut-IsEntry runs k p [] e h = cc e
get_mut-IsEntry runs k p ((j, q) ∷ m) e (h, hs) = elim (found k j p q m e) [
  | inl (at, same_process) ↦
      subst (λ r. IsEntry runs (k, r)) same_process
        (subst (λ l. IsEntry runs (l, q)) (sym ((==_iff k j).0 at)) h)
  | inr (ne, e') ↦ get_mut-IsEntry runs k p m e' hs
]

pub remove-entries :
    (runs runs' : ℕ → Bool) (k : ℕ) (p : SchedulerProcess) (m : Map SchedulerProcess)
    → Agree k runs runs'
    → get_mut k m ≡ some p
    → in_map k m ≤ 1
    → All (IsEntry runs) m
    → All (IsEntry runs') (remove k m)
remove-entries runs runs' k p [] agree e b h = tt
remove-entries runs runs' k p ((j, q) ∷ m) agree e b (h, hs) = elim (found k j p q m e) [
  | inl (at, same_process) ↦
      rw at
        (entries-other runs runs' k m agree (omega (arith, b, one-same k j q.process.id h.0 at)) hs)
  | inr (ne, e') ↦ rw ne (
    IsEntry-other runs runs' k j q agree ne h,
    remove-entries runs runs' k p m agree e' (omega (arith, b)) hs,
  )
]

pub write-entries :
    (runs runs' : ℕ → Bool) (k : ℕ) (p p' : SchedulerProcess) (m : Map SchedulerProcess)
    → Agree k runs runs'
    → get_mut k m ≡ some p
    → in_map k m ≤ 1
    → IsEntry runs' (k, p')
    → All (IsEntry runs) m
    → All (IsEntry runs') (write k p' m)
write-entries runs runs' k p p' [] agree e b h' h = tt
write-entries runs runs' k p p' ((j, q) ∷ m) agree e b h' (h, hs) = elim (found k j p q m e) [
  | inl (at, same_process) ↦ rw at (
    subst (λ l. IsEntry runs' (l, p')) ((==_iff k j).0 at) h',
    entries-other runs runs' k m agree (omega (arith, b, one-same k j q.process.id h.0 at)) hs,
  )
  | inr (ne, e') ↦ rw ne (
    IsEntry-other runs runs' k j q agree ne h,
    write-entries runs runs' k p p' m agree e' (omega (arith, b)) h' hs,
  )
]

pub insert-entries :
    (runs runs' : ℕ → Bool) (k : ℕ) (p : SchedulerProcess) (m : Map SchedulerProcess)
    → Agree k runs runs'
    → in_map k m ≡ 0
    → IsEntry runs' (k, p)
    → All (IsEntry runs) m
    → All (IsEntry runs') (insert k p m)
insert-entries runs runs' k p [] agree z h' h = (h', tt)
insert-entries runs runs' k p ((j, q) ∷ m) agree z h' (h, hs) =
    let ne = one-other k j q.process.id h.0 (omega (arith, z)) in
    let all = entries-other runs runs' k ((j, q) ∷ m) agree z (h, hs) in
    elim (Bool-cases (ltb k j)) [
      | inl lt ↦ rw lt (h', all)
      | inr ge ↦ rw (ge, ne) (all.0, insert-entries runs runs' k p m agree (omega (arith, z)) h' hs)
    ]

pub get_mut-insert :
    (k : ℕ) (p : SchedulerProcess) (m : Map SchedulerProcess)
    → get_mut k m ≡ none
    → get_mut k (insert k p m) ≡ some p
get_mut-insert k p [] e = rw (==-self k) refl
get_mut-insert k p ((j, q) ∷ m) e = elim (Bool-cases (k == j)) [
  | inl at ↦ absurd (clash {q = q} (sym e ∙ get_mut-here k j q m at))
  | inr ne ↦ elim (Bool-cases (ltb k j)) [
    | inl lt ↦ rw (lt, ==-self k) refl
    | inr ge ↦ rw (ge, ne, ne) (get_mut-insert k p m (sym (get_mut-later k j q m ne) ∙ e))
  ]
]
  where
    clash : {q : SchedulerProcess} → none ≡ some q → ⊥
    clash h = cc h
