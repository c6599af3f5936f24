-- ===== src/Scheduler/Census.antt =====
-- kernel/src/process/scheduler.rs: how often a process occurs in the lists of the scheduler.
use emerald.Prelude.{
  ℕ, zero, suc, ◌+◌, ◌≡◌, refl, sym, ap, ◌∙◌, ◌⊎◌, inl, inr, Option, none, some, List, [], ◌∷◌,
  ◌++◌, take, drop, map, All, All-append, true, false, ◌==◌, ==_iff, if◌then◌else◌, Bool-cases,
  arith,
}
use emerald.Scheduler.Process.{Map, get_mut, insert, write, remove}
use emerald.Scheduler.State.{SchedulerProcess, with_max_priority, max_counter, pop_first, pop}

-- 1 for the process with this identity, 0 for the others.
abbrev pub same : ℕ → ℕ → ℕ
same n id = if id == n then 1 else 0

abbrev pub one : ℕ → SchedulerProcess → ℕ
one n p = same n p.process.id

abbrev pub in_heap : ℕ → List SchedulerProcess → ℕ
in_heap n [] = 0
in_heap n (p ∷ ps) = one n p + in_heap n ps

abbrev pub in_map : ℕ → Map SchedulerProcess → ℕ
in_map n [] = 0
in_map n ((k, p) ∷ m) = one n p + in_map n m

pub in_heap-append :
    (n : ℕ) (ps qs : List SchedulerProcess) → in_heap n (ps ++ qs) ≡ in_heap n ps + in_heap n qs
in_heap-append n [] qs = omega arith
in_heap-append n (p ∷ ps) qs = omega (arith, in_heap-append n ps qs)

in_heap-take :
    (n t : ℕ) (ps : List SchedulerProcess)
    → in_heap n (take t ps) + in_heap n (drop t ps) ≡ in_heap n ps
in_heap-take n zero ps = omega arith
in_heap-take n (suc t) [] = omega arith
in_heap-take n (suc t) (p ∷ ps) = omega (arith, in_heap-take n t ps)

pub in_heap-rotate :
    (n t : ℕ) (ps : List SchedulerProcess) → in_heap n (drop t ps ++ take t ps) ≡ in_heap n ps
in_heap-rotate n t ps = omega (arith, in_heap-append n (drop t ps) (take t ps), in_heap-take n t ps)

pub in_heap-reset :
    (n : ℕ) (ps : List SchedulerProcess) → in_heap n (map with_max_priority ps) ≡ in_heap n ps
in_heap-reset n [] = refl
in_heap-reset n (p ∷ ps) = ap (λ k. one n p + k) (in_heap-reset n ps)

-- A process of a heap is taken out, with the counter that is sought.
abbrev pub Popped :
    ℕ → List SchedulerProcess → Option (SchedulerProcess × List SchedulerProcess) → Type 0
Popped c ps none = Unit
Popped c ps (some (q, qs)) =
    (q.priority_counter ≡ c) × ((n : ℕ) → one n q + in_heap n qs ≡ in_heap n ps)

pub pop_first-Popped : (c : ℕ) (ps : List SchedulerProcess) → Popped c ps (pop_first c ps)
pop_first-Popped c [] = tt
pop_first-Popped c (p ∷ ps) = elim (Bool-cases (p.priority_counter == c)) [
  | inl e ↦ rw e ((==_iff p.priority_counter c).0 e, λ n. refl)
  | inr e ↦ rw e (later (pop_first c ps) (pop_first-Popped c ps))
]
  where
    later :
        (o : Option (SchedulerProcess × List SchedulerProcess))
        → Popped c ps o
        → Popped c (p ∷ ps) (elim o [ none ↦ none | some (q, qs) ↦ some (q, p ∷ qs) ])
    later none h = tt
    later (some (q, qs)) (e, h) = (e, λ n. omega (arith, h n))

pub pop-Popped : (tie : ℕ) (ps : List SchedulerProcess) → Popped (max_counter ps) ps (pop tie ps)
unfolding pop
pop-Popped tie ps =
    from (pop_first (max_counter ps) (drop tie ps ++ take tie ps))
      (pop_first-Popped (max_counter ps) (drop tie ps ++ take tie ps))
  where
    from :
        (o : Option (SchedulerProcess × List SchedulerProcess))
        → Popped (max_counter ps) (drop tie ps ++ take tie ps) o
        → Popped (max_counter ps) ps o
    from none h = tt
    from (some (q, qs)) (e, h) = (e, λ n. h n ∙ in_heap-rotate n tie ps)

-- A process comes to a key that is not in use.
pub in_map-insert :
    (n k : ℕ) (p : SchedulerProcess) (m : Map SchedulerProcess)
    → get_mut k m ≡ none
    → in_map n (insert k p m) ≡ one n p + in_map n m
in_map-insert n k p [] h = refl
in_map-insert n k p ((k', q) ∷ m) h = ground (arith, h, in_map-insert n k p m)

-- Where the search for a key ends, and where it goes on.
pub get_mut-here :
    (k k' : ℕ) (q : SchedulerProcess) (m : Map SchedulerProcess)
    → (k == k') ≡ true
    → get_mut k ((k', q) ∷ m) ≡ some q
get_mut-here k k' q m e = rw e refl

pub get_mut-later :
    (k k' : ℕ) (q : SchedulerProcess) (m : Map SchedulerProcess)
    → (k == k') ≡ false
    → get_mut k ((k', q) ∷ m) ≡ get_mut k m
get_mut-later k k' q m e = rw e refl

-- The first entry of a map has the key, or the entry is among the others.
pub found :
    (k k' : ℕ) (p q : SchedulerProcess) (m : Map SchedulerProcess)
    → get_mut k ((k', q) ∷ m) ≡ some p
    → (((k == k') ≡ true) × (q ≡ p)) ⊎ (((k == k') ≡ false) × (get_mut k m ≡ some p))
found k k' p q m h = elim (Bool-cases (k == k')) [
  | inl e ↦ inl (e, some-inj q p (sym (get_mut-here k k' q m e) ∙ h))
  | inr e ↦ inr (e, sym (get_mut-later k k' q m e) ∙ h)
]
  where
    some-inj : (a b : SchedulerProcess) → some a ≡ some b → a ≡ b
    some-inj a b h = cc h

pub in_map-remove :
    (n k : ℕ) (p : SchedulerProcess) (m : Map SchedulerProcess)
    → get_mut k m ≡ some p
    → in_map n (remove k m) + one n p ≡ in_map n m
in_map-remove n k p [] h = cc h
in_map-remove n k p ((k', q) ∷ m) h = elim (found k k' p q m h) [
  | inl (e, same_process) ↦ rw e (omega (arith, ap (one n) same_process))
  | inr (e, h') ↦ rw e (omega (arith, in_map-remove n k p m h'))
]

pub in_map-write :
    (n k : ℕ) (p p' : SchedulerProcess) (m : Map SchedulerProcess)
    → get_mut k m ≡ some p
    → p'.process.id ≡ p.process.id
    → in_map n (write k p' m) ≡ in_map n m
in_map-write n k p p' [] h e = refl
in_map-write n k p p' ((k', q) ∷ m) h i = elim (found k k' p q m h) [
  | inl (e, same_process) ↦ rw e (omega (arith, ap (one n) same_process, ap (same n) i))
  | inr (e, h') ↦ rw e (omega (arith, in_map-write n k p p' m h' i))
]

-- What holds of all of a heap holds of the process that is taken out and of the rest.
abbrev pub PoppedAll :
    (SchedulerProcess → Type 0) → Option (SchedulerProcess × List SchedulerProcess) → Type 0
PoppedAll P none = Unit
PoppedAll P (some (q, qs)) = P q × All P qs

pop_first-PoppedAll :
    (P : SchedulerProcess → Type 0) (c : ℕ) (ps : List SchedulerProcess)
    → All P ps
    → PoppedAll P (pop_first c ps)
pop_first-PoppedAll P c [] h = tt
pop_first-PoppedAll P c (p ∷ ps) (h, hs) = elim (Bool-cases (p.priority_counter == c)) [
  | inl e ↦ rw e (h, hs)
  | inr e ↦ rw e (later (pop_first c ps) (pop_first-PoppedAll P c ps hs))
]
  where
    later :
        (o : Option (SchedulerProcess × List SchedulerProcess))
        → PoppedAll P o
        → PoppedAll P (elim o [ none ↦ none | some (q, qs) ↦ some (q, p ∷ qs) ])
    later none k = tt
    later (some (q, qs)) (k, ks) = (k, (h, ks))

All-rotate :
    (P : SchedulerProcess → Type 0) (t : ℕ) (ps : List SchedulerProcess)
    → All P ps
    → All P (drop t ps) × All P (take t ps)
All-rotate P zero ps h = (h, tt)
All-rotate P (suc t) [] h = (tt, tt)
All-rotate P (suc t) (p ∷ ps) (h, hs) = let (d, k) = All-rotate P t ps hs in (d, (h, k))

pub pop-PoppedAll :
    (P : SchedulerProcess → Type 0) (tie : ℕ) (ps : List SchedulerProcess)
    → All P ps
    → PoppedAll P (pop tie ps)
unfolding pop
pop-PoppedAll P tie ps h =
    let (d, k) = All-rotate P tie ps h in
    pop_first-PoppedAll P (max_counter ps) (drop tie ps ++ take tie ps)
      (All-append P (drop tie ps) (take tie ps) d k)
