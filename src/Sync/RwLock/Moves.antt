-- ===== src/Sync/RwLock/Moves.antt =====
-- kernel/src/sync/spin/rwlock.rs: every move of one thread.
use emerald.Prelude.{
  ℕ, ◌+◌, ◌≡◌, inl, inr, refl, ap, ◌∙◌, true, Option, none, some, arith, Bool-cases,
}
use mathlib.Core.Path.{subst}
use emerald.Sync.RwLock.{
  Phase, idle, reading, writing, want_read, once_read, check_write, check_once, Event, read,
  try_read, write, try_write, drop_guard, next_access, start_drop, is_idle, move,
}
use emerald.Sync.RwLock.Shares.{share, owns, either, pushes, Fits, Moved, read_unlock-eq}
use emerald.Sync.RwLock.Access.{moves, access-Moved, shared, thread}

module _ (rest word cpu : ℕ) (other owner : Option ℕ) where
  drop-Moved :
      (p : Phase) (cli : ℕ)
      → Fits rest other word owner cpu p cli
      → Moved rest other
          (shared word owner)
          cpu
          p
          (start_drop (shared word owner) (thread cpu p cli) p)
  unfolding start_drop
  drop-Moved reading cli f = rw (read_unlock-eq word rest f.bound f.sum) (
    record {
      sum = omega arith;
      bound = omega (arith, f.sum, f.bound);
      owned = f.owned;
      alone = f.alone;
      balanced = f.balanced;
    },
    refl,
  )
  drop-Moved writing cli f =
      let own : owner ≡ some cpu =
        f.owned ∙ ap (λ o. either o (some cpu)) (f.alone (omega (arith, f.sum, f.bound))) in
      rw own (
        record {
          sum = f.sum;
          bound = f.bound;
          owned = f.owned;
          alone = f.alone;
          balanced = f.balanced;
        },
        refl,
      )
  drop-Moved _ cli f = (f, refl)

  begins :
      (p q : Phase) (cli k : ℕ)
      → share q ≡ 0
      → owns q cpu ≡ none
      → pushes q ≡ k
      → Fits rest other word owner cpu p cli
      → is_idle p ≡ true
      → Fits rest other word owner cpu q (cli + k)
  begins idle q cli k no_share no_owner k_lem f idle_lem =
      moves rest word cpu other owner idle q cli (cli + k) no_share no_owner
        (omega (arith, f.balanced, k_lem)) f
  begins _ q cli k no_share no_owner k_lem f idle_lem = cc idle_lem

  pub move-Moved :
      (ev : Event) (p : Phase) (cli : ℕ)
      → Fits rest other word owner cpu p cli
      → Moved rest other
          (shared word owner)
          cpu
          p
          (move ev (shared word owner) (thread cpu p cli) p)
  unfolding move
  move-Moved read p cli f = elim (Bool-cases (is_idle p)) [
    | inl yes_idle ↦ rw yes_idle (
      subst (Fits rest other word owner cpu want_read) (omega arith)
          (begins p want_read cli 0 refl refl refl f yes_idle),
      refl,
    )
    | inr in_call ↦ rw in_call (f, refl)
  ]
  move-Moved try_read p cli f = elim (Bool-cases (is_idle p)) [
    | inl yes_idle ↦ rw yes_idle (
      subst (Fits rest other word owner cpu once_read) (omega arith)
          (begins p once_read cli 0 refl refl refl f yes_idle),
      refl,
    )
    | inr in_call ↦ rw in_call (f, refl)
  ]
  move-Moved write p cli f = elim (Bool-cases (is_idle p)) [
    | inl yes_idle ↦ rw yes_idle (begins p check_write cli 1 refl refl refl f yes_idle, refl)
    | inr in_call ↦ rw in_call (f, refl)
  ]
  move-Moved try_write p cli f = elim (Bool-cases (is_idle p)) [
    | inl yes_idle ↦ rw yes_idle (begins p check_once cli 1 refl refl refl f yes_idle, refl)
    | inr in_call ↦ rw in_call (f, refl)
  ]
  move-Moved drop_guard p cli f = drop-Moved p cli f
  move-Moved (next_access weak) p cli f = access-Moved rest word cpu other owner weak p cli f
