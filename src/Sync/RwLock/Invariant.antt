-- ===== src/Sync/RwLock/Invariant.antt =====
-- kernel/src/sync/spin/rwlock.rs: what the words of the lock say about all the threads.
use emerald.Prelude.{
  ℕ, zero, suc, ◌+◌, ◌≤◌, ◌<◌, ◌≡◌, ◌⊎◌, inl, inr, refl, sym, ◌∙◌, Option, none, some, List, [],
  ◌∷◌, arith, All, Outcome, ok, panic, undefined, ◌>>=◌, get_elem?,
}
use emerald.Sync.Lock.{write_locked_all}
use emerald.Sync.RwLock.{
  Phase, check_write, Event, Shared, Thread, move, move_at, writing, clear_owner,
}
use emerald.Sync.RwLock.Shares.{share, shares, owns, either, owner_of, pushes, Moved}
use emerald.Sync.RwLock.Moves.{move-Moved}

abbrev pub Balanced : Thread → Type 0
Balanced t = t.cli ≡ pushes t.phase

-- The words, seen from a part of the threads: the others have `rest` in the word, and `other` as the
-- owner.
pub record AllFit (rest : ℕ) (other : Option ℕ) (word : ℕ) (owner : Option ℕ) (ts : List Thread)
    : Type 0 where
  pub sum : word ≡ rest + shares ts
  pub bound : word ≤ write_locked_all
  pub owned : owner ≡ either other (owner_of ts)
  pub alone : rest < write_locked_all → other ≡ none
  pub balanced : All Balanced ts

-- The invariant of the lock.
abbrev pub IsLocked : Shared → List Thread → Type 0
IsLocked s ts = AllFit 0 none s.word s.owner_cpu ts

owns-cases : (p : Phase) (cpu : ℕ) → (owns p cpu ≡ none) ⊎ (share p ≡ write_locked_all)
owns-cases writing cpu = inr refl
owns-cases clear_owner cpu = inr refl
owns-cases _ cpu = inl refl

owner_of-none : (ts : List Thread) → shares ts < write_locked_all → owner_of ts ≡ none
owner_of-none [] h = refl
owner_of-none (t ∷ ts) h = elim (owns-cases t.phase t.cpu) [
  | inl nobody ↦ rw nobody (owner_of-none ts (omega arith))
  | inr all ↦ absurd (omega (arith, h, all))
]

either-none : (o : Option ℕ) → either o none ≡ o
either-none none = refl
either-none (some c) = refl

either_assoc : (a b c : Option ℕ) → either a (either b c) ≡ either (either a b) c
either_assoc none b c = refl
either_assoc (some x) b c = refl

module _ (rest : ℕ) (other : Option ℕ) (ts : List Thread)
    (alone : rest < write_locked_all → other ≡ none) where
  rest-alone : rest + shares ts < write_locked_all → either other (owner_of ts) ≡ none
  rest-alone h = rw (alone (omega arith)) (owner_of-none ts (omega arith))

  -- At most one of three owns the lock, so their order does not matter.
  swap :
      (p : Phase) (cpu : ℕ)
      → rest + shares ts + share p ≤ write_locked_all
      → either other (either (owns p cpu) (owner_of ts))
        ≡ either (either other (owner_of ts)) (owns p cpu)
  swap p cpu h = elim (owns-cases p cpu) [
    | inl nobody ↦ rw nobody (sym (either-none (either other (owner_of ts))))
    | inr all ↦
        rw (alone (omega (arith, h, all)), owner_of-none ts (omega (arith, h, all)))
          (either-none (owns p cpu))
  ]

-- A move that returns keeps the fit; a move panics only at the test of `write` that finds the
-- thread's own CPU, and is never undefined.
abbrev pub AllMoved :
    ℕ → Option ℕ → Shared → List Thread → ℕ → Outcome (Shared × List Thread) → Type 0
AllMoved rest other s ts i (ok (s', ts')) = AllFit rest other s'.word s'.owner_cpu ts'
AllMoved rest other s ts i panic =
    (t : Thread) × (get_elem? ts i ≡ some t) × (t.phase ≡ check_write) × (s.owner_cpu ≡ some t.cpu)
AllMoved rest other s ts i undefined = ⊥

head-AllMoved :
    (rest : ℕ) (other : Option ℕ) (s : Shared) (t : Thread) (ts : List Thread)
    → AllFit rest other s.word s.owner_cpu (t ∷ ts)
    → (o : Outcome (Shared × Thread))
    → Moved (rest + shares ts) (either other (owner_of ts)) s t.cpu t.phase o
    → AllMoved rest other s (t ∷ ts) 0 (o >>= λ r. ok (r.0, r.1 ∷ ts))
head-AllMoved rest other s t ts f (ok (s', t')) (g, same) = record {
  sum = omega (arith, g.sum);
  bound = g.bound;
  owned =
      g.owned ∙ sym (swap rest other ts f.alone t'.phase t'.cpu (omega (arith, g.sum, g.bound)));
  alone = f.alone;
  balanced = (g.balanced, f.balanced.1);
}
head-AllMoved rest other s t ts f panic (at, own) = (t, refl, at, own)
head-AllMoved rest other s t ts f undefined m = m

tail-AllMoved :
    (rest : ℕ) (other : Option ℕ) (s : Shared) (t : Thread) (ts : List Thread) (i : ℕ)
    → AllFit rest other s.word s.owner_cpu (t ∷ ts)
    → (o : Outcome (Shared × List Thread))
    → AllMoved (rest + share t.phase) (either other (owns t.phase t.cpu)) s ts i o
    → AllMoved rest other s (t ∷ ts) (suc i) (o >>= λ r. ok (r.0, t ∷ r.1))
tail-AllMoved rest other s t ts i f (ok (s', ts')) g = record {
  sum = omega (arith, g.sum);
  bound = g.bound;
  owned = g.owned ∙ sym (either_assoc other (owns t.phase t.cpu) (owner_of ts'));
  alone = f.alone;
  balanced = (f.balanced.0, g.balanced);
}
tail-AllMoved rest other s t ts i f panic m = m
tail-AllMoved rest other s t ts i f undefined m = m

pub move_at-AllMoved :
    (ev : Event) (i rest : ℕ) (other : Option ℕ) (s : Shared) (ts : List Thread)
    → AllFit rest other s.word s.owner_cpu ts
    → AllMoved rest other s ts i (move_at ev i s ts)
unfolding move_at
move_at-AllMoved ev i rest other s [] f = f
move_at-AllMoved ev zero rest other s (t ∷ ts) f =
    head-AllMoved rest other s t ts f (move ev s t t.phase) (
      move-Moved (rest + shares ts) s.word t.cpu (either other (owner_of ts)) s.owner_cpu ev t.phase
        t.cli
        (record {
          sum = omega (arith, f.sum);
          bound = f.bound;
          owned =
              f.owned ∙ swap rest other ts f.alone t.phase t.cpu (omega (arith, f.sum, f.bound));
          alone = rest-alone rest other ts f.alone;
          balanced = f.balanced.0;
        }))
move_at-AllMoved ev (suc i) rest other s (t ∷ ts) f =
    tail-AllMoved rest other s t ts i f (move_at ev i s ts) (
      move_at-AllMoved ev i (rest + share t.phase) (either other (owns t.phase t.cpu)) s ts
        (record {
          sum = omega (arith, f.sum);
          bound = f.bound;
          owned = f.owned ∙ either_assoc other (owns t.phase t.cpu) (owner_of ts);
          alone = λ h. rw (f.alone (omega (arith, h))) (elim (owns-cases t.phase t.cpu) [
            | inl nobody ↦ nobody
            | inr all ↦ absurd (omega (arith, h, all))
          ]);
          balanced = f.balanced.1;
        }))
