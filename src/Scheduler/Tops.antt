-- ===== src/Scheduler/Tops.antt =====
-- kernel/src/process/scheduler.rs: the top of the heap, and its counter.
use emerald.Prelude.{
  ℕ, zero, suc, ◌≤◌, ◌≡◌, refl, ap, ◌⊎◌, inl, inr, Option, none, some, List, [], ◌∷◌, ◌++◌, map,
  take, drop, All, Bool, true, false, ◌==◌, if◌then◌else◌, Bool-cases, ltb, ltb→lt, arith,
}
use emerald.Scheduler.State.{
  SchedulerProcess, Scheduler, max_counter, pop_first, pop, needs_reset, with_max_priority,
  reset_scheduled_processes_counters,
}

abbrev pub Differs : ℕ → SchedulerProcess → Type 0
Differs c p = (p.priority_counter == c) ≡ false

pub pop_first-none :
    (c : ℕ) (ps : List SchedulerProcess) → pop_first c ps ≡ none → All (Differs c) ps
pop_first-none c [] h = tt
pop_first-none c (p ∷ ps) h =
    go (p.priority_counter == c) (pop_first c ps) refl (λ e. pop_first-none c ps e) h
  where
    go :
        (b : Bool) (o : Option (SchedulerProcess × List SchedulerProcess))
        → (p.priority_counter == c) ≡ b
        → (o ≡ none → All (Differs c) ps)
        → if◌then◌else◌ {A = Option (SchedulerProcess × List SchedulerProcess)} b
            (some (p, ps))
            (elim o [ none ↦ none | some (q, qs) ↦ some (q, p ∷ qs) ])
          ≡ none
        → All (Differs c) (p ∷ ps)
    go true o e k h = cc h
    go false none e k h = (e, k refl)
    go false (some (q, qs)) e k h = cc h

pub All-split :
    (P : SchedulerProcess → Type 0) (xs ys : List SchedulerProcess)
    → All P (xs ++ ys)
    → All P xs × All P ys
All-split P [] ys h = (tt, h)
All-split P (x ∷ xs) ys (h, hs) = let (hx, hy) = All-split P xs ys hs in ((h, hx), hy)

pub All-unrotate :
    (P : SchedulerProcess → Type 0) (t : ℕ) (ps : List SchedulerProcess)
    → All P (drop t ps)
    → All P (take t ps)
    → All P ps
All-unrotate P zero ps d k = d
All-unrotate P (suc t) [] d k = tt
All-unrotate P (suc t) (p ∷ ps) d (h, k) = (h, All-unrotate P t ps d k)

pub max_counter-attained :
    (c : ℕ) (ps : List SchedulerProcess) → All (Differs c) ps → c ≡ max_counter ps → ps ≡ []
max_counter-attained c [] h e = refl
max_counter-attained c (p ∷ ps) (h, hs) e =
    elim (Bool-cases (ltb p.priority_counter (max_counter ps))) [
      | inl lt ↦
          let nil =
            max_counter-attained c ps hs
              (omega (arith, e, ltb→lt p.priority_counter (max_counter ps) lt)) in
          absurd (omega (arith, ltb→lt p.priority_counter (max_counter ps) lt, ap max_counter nil))
      | inr ge ↦ absurd (ground (arith, ge, e, h))
    ]

pub pop-none : (tie : ℕ) (ps : List SchedulerProcess) → pop tie ps ≡ none → ps ≡ []
unfolding pop
pop-none tie ps h =
    let c = max_counter ps in
    let (d, k) =
      All-split (Differs c) (drop tie ps) (take tie ps)
        (pop_first-none c (drop tie ps ++ take tie ps) h) in
    max_counter-attained c ps (All-unrotate (Differs c) tie ps d k) refl

abbrev pub counted : Scheduler → Scheduler
counted s = if needs_reset s.scheduled_processes then reset_scheduled_processes_counters s else s

-- A decrement is at most 5.
pub counted-enough :
    (s : Scheduler)
    → ((counted s).scheduled_processes ≡ []) ⊎ (5 ≤ max_counter (counted s).scheduled_processes)
unfolding reset_scheduled_processes_counters
counted-enough s = go (needs_reset s.scheduled_processes) refl
  where
    reset :
        (ps : List SchedulerProcess)
        → (map with_max_priority ps ≡ []) ⊎ (5 ≤ max_counter (map with_max_priority ps))
    reset [] = inl refl
    reset (p ∷ ps) = inr (omega arith)

    room : (ps : List SchedulerProcess) → needs_reset ps ≡ false → (ps ≡ []) ⊎ (5 ≤ max_counter ps)
    room [] e = inl refl
    room (p ∷ ps) e = inr (ground (arith, e))

    go :
        (b : Bool)
        → needs_reset s.scheduled_processes ≡ b
        → let s' = if b then reset_scheduled_processes_counters s else s in
          (s'.scheduled_processes ≡ []) ⊎ (5 ≤ max_counter s'.scheduled_processes)
    go true e = reset s.scheduled_processes
    go false e = room s.scheduled_processes e
