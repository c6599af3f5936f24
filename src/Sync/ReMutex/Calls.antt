-- ===== src/Sync/ReMutex/Calls.antt =====
-- The moves of one CPU at a `ReMutex` of kernel/src/sync/spin/remutex.rs.
use emerald.Prelude.{
  ℕ, ◌-◌, ◌≡◌, ◌⊎◌, inl, inr, refl, sym, ap, true, false, arith, ok, Post, Post-bind, ensure,
  ensure_any, ◌==◌, ltb, if◌then◌else◌, Bool-cases,
}
use mathlib.Core.Path.{subst}
use emerald.Sync.Lock.{write_locked_all}
use emerald.Sync.ReMutex.{
  Place, between, check_lock, want_lock, spin_lock, check_try, want_once, store_owner, clear_owner,
  unlock, pop_last, Move, lock, try_lock, drop_one, go_on, ReMutex, CpuThread, drop_guard_of,
  is_between, begin, make_move,
}
use emerald.Sync.ReMutex.Invariant.{
  at, inside, outside, Outside, Inside, MovedInside, MovedOutside, Free,
}

between_split : (p : Place) → (p ≡ between) ⊎ (is_between p ≡ false)
unfolding is_between
between_split between = inl refl
between_split check_lock = inr refl
between_split want_lock = inr refl
between_split spin_lock = inr refl
between_split check_try = inr refl
between_split want_once = inr refl
between_split store_owner = inr refl
between_split clear_owner = inr refl
between_split unlock = inr refl
between_split pop_last = inr refl

begin-MovedInside :
    (m : Move) (cpu : ℕ) (s : ReMutex) (g n : ℕ)
    → s.word ≡ write_locked_all
    → Inside s cpu (at between g n)
    → Post (MovedInside cpu) (begin m s (at between g n))
unfolding begin drop_guard_of
begin-MovedInside lock cpu s g n w i = inl (w, (i.0, omega (arith, i.1)))
begin-MovedInside try_lock cpu s g n w i = inl (w, (i.0, omega (arith, i.1)))
begin-MovedInside (go_on weak) cpu s g n w i = inl (w, i)
begin-MovedInside drop_one cpu s g n w i = rw is_held (
    Post-bind (λ u. Unit) (MovedInside cpu) (ensure (ltb 0 s.lock_count)) _ (ensure_any _)
      (λ u k. elim (Bool-cases (s.lock_count - 1 == 0)) [
        | inl last ↦
            rw last
              (inl (w, ((i.0.0, ground (arith, last, i.0.1, i.0.2)), omega (arith, i.0.1, i.1))))
        | inr more ↦ rw more (
            inl (
              w,
              (
                (i.0.0, ground (arith, more, i.0.2), omega (arith, i.0.2)),
                omega (arith, i.0.1, i.1),
              ),
            ))
      ]))
  where
    is_held : ltb 0 g ≡ true
    is_held = ground (arith, i.0.1)

begin-MovedOutside :
    (m : Move) (cpu : ℕ) (s : ReMutex) (g n : ℕ)
    → Outside (at between g n)
    → Post (MovedOutside s cpu) (begin m s (at between g n))
unfolding begin
begin-MovedOutside lock cpu s g n i = inl (refl, (tt, i.1, omega arith))
begin-MovedOutside try_lock cpu s g n i = inl (refl, (tt, i.1, omega arith))
begin-MovedOutside (go_on weak) cpu s g n i = inl (refl, i)
begin-MovedOutside drop_one cpu s g n i = rw no_guard (inl (refl, i))
  where
    no_guard : ltb 0 g ≡ false
    no_guard = ground (arith, i.1)

-- A call begins, or a guard is dropped, only between the calls.
started :
    (Q : ReMutex × CpuThread → Type 0) (m : Move) (s : ReMutex) (p : Place) (g n : ℕ)
    → Q (s, at p g n)
    → (p ≡ between → Post Q (begin m s (at p g n)))
    → Post Q (if is_between p then begin m s (at p g n) else ok (s, at p g n))
unfolding is_between
started Q m s p g n q h = elim (between_split p) [
  | inl e ↦ rw (Post, ap is_between e) (h e)
  | inr e ↦ rw (Post, e) q
]

held :
    (m : Move) (cpu : ℕ) (s : ReMutex) (p : Place) (g n : ℕ)
    → s.word ≡ write_locked_all
    → Inside s cpu (at p g n)
    → Post (MovedInside cpu) (if is_between p then begin m s (at p g n) else ok (s, at p g n))
held m cpu s p g n w i = started (MovedInside cpu) m s p g n (inl (w, i)) (λ e.
    subst (λ q. Post (MovedInside cpu) (begin m s (at q g n))) (sym e)
      (begin-MovedInside m cpu s g n w (subst (λ q. Inside s cpu (at q g n)) e i)))

unheld :
    (m : Move) (cpu : ℕ) (s : ReMutex) (p : Place) (g n : ℕ)
    → Outside (at p g n)
    → Post (MovedOutside s cpu) (if is_between p then begin m s (at p g n) else ok (s, at p g n))
unheld m cpu s p g n i = started (MovedOutside s cpu) m s p g n (inl (refl, i)) (λ e.
    subst (λ q. Post (MovedOutside s cpu) (begin m s (at q g n))) (sym e)
      (begin-MovedOutside m cpu s g n (subst (λ q. Outside (at q g n)) e i)))

pub make_move-MovedInside :
    (m : Move) (cpu : ℕ) (s : ReMutex) (t : CpuThread)
    → s.word ≡ write_locked_all
    → Inside s cpu t
    → Post (MovedInside cpu) (make_move m cpu s t)
unfolding make_move
make_move-MovedInside (go_on weak) cpu s t w i = inside weak cpu s t.place t.guards t.n_cli w i
make_move-MovedInside lock cpu s t w i = held lock cpu s t.place t.guards t.n_cli w i
make_move-MovedInside try_lock cpu s t w i = held try_lock cpu s t.place t.guards t.n_cli w i
make_move-MovedInside drop_one cpu s t w i = held drop_one cpu s t.place t.guards t.n_cli w i

pub make_move-MovedOutside :
    (m : Move) (cpu : ℕ) (s : ReMutex) (t : CpuThread)
    → Free s cpu
    → Outside t
    → Post (MovedOutside s cpu) (make_move m cpu s t)
unfolding make_move
make_move-MovedOutside (go_on weak) cpu s t w i = outside weak cpu s t.place t.guards t.n_cli w i
make_move-MovedOutside lock cpu s t w i = unheld lock cpu s t.place t.guards t.n_cli i
make_move-MovedOutside try_lock cpu s t w i = unheld try_lock cpu s t.place t.guards t.n_cli i
make_move-MovedOutside drop_one cpu s t w i = unheld drop_one cpu s t.place t.guards t.n_cli i
