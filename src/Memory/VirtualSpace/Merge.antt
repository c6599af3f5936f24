-- ===== src/Memory/VirtualSpace/Merge.antt =====
-- When the entries of kernel/src/memory_management/virtual_space.rs stay a tiling in `deallocate`.
use emerald.Prelude.{
  ℕ, ◌+◌, ◌≤◌, ◌<◌, ◌≡◌, inl, inr, refl, sym, ap, ◌∙◌, true, false, none, some, List, [], ◌∷◌, ◌++◌,
  arith, ok, Result, success, Bool-cases,
}
use mathlib.Core.Path.{subst}
use emerald.Memory.VirtualSpace.{
  SpaceError, Entry, is_free, rewind, merge_next, merge_prev, release, deallocate,
}
use emerald.Memory.VirtualSpace.Tiling.{Tiles, Tiles-replace}
use emerald.Memory.VirtualSpace.Deallocate.{
  head, entry_before, rewind-append, freed, deallocate-Frees,
}

-- The entries from the freed one on tile the same range after it is joined with the next.
Tiles-merge_next :
    (e : Entry) (after : List Entry) (mid stop : ℕ)
    → Tiles mid (e ∷ after) stop
    → let (current, after') = merge_next (freed e.virtual_start e.size) after in
      Tiles mid (current ∷ after') stop
unfolding merge_next
Tiles-merge_next e [] mid stop t = t
Tiles-merge_next e (x ∷ after) mid stop t = elim (Bool-cases (is_free x)) [
  | inl unused ↦
      rw unused
        (t.0, subst (λ k. Tiles k after stop) {x = mid + e.size + x.size} (omega arith) t.1.1)
  | inr live ↦ rw live t
]

Tiles-rewind_replace :
    (before xs ys : List Entry) (start stop : ℕ)
    → ((mid : ℕ) → Tiles mid xs stop → Tiles mid ys stop)
    → Tiles start (rewind before xs) stop
    → Tiles start (rewind before ys) stop
Tiles-rewind_replace before xs ys start stop f t =
    subst (λ l. Tiles start l stop) (sym (rewind-append before [] ys))
      (Tiles-replace (rewind before []) xs ys start stop f
        (subst (λ l. Tiles start l stop) (rewind-append before [] xs) t))

release-Tiles :
    (before : List Entry) (e : Entry) (after : List Entry) (start stop : ℕ)
    → ((p : Entry) → head before ≡ some p → is_free p ≡ false)
    → Tiles start (rewind before (e ∷ after)) stop
    → Tiles start (release before e after) stop
unfolding release merge_prev head
release-Tiles [] e after start stop mapped t = Tiles-merge_next e after start stop t
release-Tiles (p ∷ before) e after start stop mapped t = rw (mapped p refl) (
    Tiles-rewind_replace (p ∷ before) (e ∷ after) _ start stop
      (λ mid. Tiles-merge_next e after mid stop) t)

-- Where the entry in front of the freed one is mapped, or there is none, the entries tile the same
-- range after `deallocate`.
pub deallocate-Tiles :
    (es : List Entry) (addr size : ℕ) (es' : List Entry) (start stop : ℕ)
    → Tiles start es stop
    → deallocate es addr size ≡ ok (success tt, es')
    → ((p : Entry) → entry_before none es addr ≡ some p → is_free p ≡ false)
    → Tiles start es' stop
deallocate-Tiles es addr size es' start stop t e mapped =
    let f = deallocate-Frees es addr size es' e in
    subst (λ l. Tiles start l stop) (sym f.new)
      (release-Tiles f.before f.entry f.after start stop (λ p h. mapped p (f.behind ∙ h))
        (subst (λ l. Tiles start l stop) f.old t))

Tiles-suffix :
    (xs ys : List Entry) (start stop : ℕ)
    → Tiles start (xs ++ ys) stop
    → (mid : ℕ) × Tiles mid ys stop
Tiles-suffix [] ys start stop t = (start, t)
Tiles-suffix (x ∷ xs) ys start stop t = Tiles-suffix xs ys (start + x.size) stop t.1

Tiles-rewind_suffix :
    (before ys : List Entry) (start stop : ℕ)
    → Tiles start (rewind before ys) stop
    → (mid : ℕ) × Tiles mid ys stop
Tiles-rewind_suffix before ys start stop t =
    Tiles-suffix (rewind before []) ys start stop
      (subst (λ l. Tiles start l stop) (rewind-append before [] ys) t)

merge_next_grows :
    (start n : ℕ) (after : List Entry)
    → let current = (merge_next (freed start n) after).0 in
      (current.virtual_start ≡ start) × (n ≤ current.size)
unfolding merge_next
merge_next_grows start n [] = omega arith
merge_next_grows start n (x ∷ after) = ground arith

release-not-Tiles :
    (p : Entry) (before : List Entry) (e : Entry) (after : List Entry) (start stop start' stop' : ℕ)
    → is_free p ≡ true
    → 0 < e.size
    → Tiles start (rewind (p ∷ before) (e ∷ after)) stop
    → ¬ Tiles start' (release (p ∷ before) e after) stop'
unfolding release merge_prev
release-not-Tiles p before e after start stop start' stop' unused pos t t' =
    let m = merge_next (freed e.virtual_start e.size) after in
    let grown = record p { size = p.size + m.0.size } in
    let (mid, old) = Tiles-rewind_suffix before (p ∷ e ∷ after) start stop t in
    let (mid', new) =
      Tiles-rewind_suffix before (grown ∷ m.0 ∷ m.1) start' stop' (rw unused at t') in
    absurd
      (omega (arith, old.0, old.1.0, new.0, new.1.0, merge_next_grows e.virtual_start e.size after))

head-cons : (l : List Entry) (p : Entry) → head l ≡ some p → (b : List Entry) × (l ≡ p ∷ b)
unfolding head
head-cons [] p h = cc
head-cons (x ∷ b) p h = (b, cc)

deallocate-pos :
    (es : List Entry) (addr size : ℕ) (r : Result SpaceError (Unit {0}) × List Entry)
    → deallocate es addr size ≡ ok r
    → 0 < size
unfolding deallocate
deallocate-pos es addr size r e = ground (arith, e)

-- Where the entry in front of the freed one is free, it grows by the freed range and that range stays
-- in the list as well: no range is tiled by the entries after `deallocate`.
pub deallocate-not-Tiles :
    (es : List Entry) (addr size : ℕ) (es' : List Entry) (start stop start' stop' : ℕ) (p : Entry)
    → Tiles start es stop
    → deallocate es addr size ≡ ok (success tt, es')
    → entry_before none es addr ≡ some p
    → is_free p ≡ true
    → ¬ Tiles start' es' stop'
deallocate-not-Tiles es addr size es' start stop start' stop' p t e behind unused t' =
    let f = deallocate-Frees es addr size es' e in
    let (b, same) = head-cons f.before p (sym f.behind ∙ behind) in
    release-not-Tiles p b f.entry f.after start stop start' stop' unused
      (omega (arith, deallocate-pos es addr size _ e, f.whole))
      (subst (λ l. Tiles start l stop) (f.old ∙ ap (λ l. rewind l (f.entry ∷ f.after)) same) t)
      (subst (λ l. Tiles start' l stop') (f.new ∙ ap (λ l. release l f.entry f.after) same) t')
