-- ===== src/Sync/RwLock/Access.antt =====
-- kernel/src/sync/spin/rwlock.rs: the accesses of a thread inside a call.
use emerald.Prelude.{
  ℕ, ◌+◌, ◌≡◌, inl, inr, refl, sym, ap, ◌∙◌, Bool, true, false, Option, none, some, arith, ◌==◌,
  Bool-cases, ==_iff,
}
use emerald.Sync.Lock.{unlocked, is_read_lockable, try_write_lock, write_locked_all}
use emerald.Sync.RwLock.{
  Phase, idle, reading, writing, want_read, spin_read, once_read, store_no_owner, check_write,
  want_write, spin_write, check_once, once_write, store_owner, clear_owner, unlock_write,
  pop_cli_last, Shared, Thread, is_owner, access,
}
use emerald.Sync.RwLock.Shares.{
  share, owns, either, pushes, Fits, Moved, try_read-won, lockable-lt, try_read-lost, try_write-won,
  try_write-lost, write_unlock-eq, is_owner-eq,
}

abbrev pub shared : ℕ → Option ℕ → Shared
shared word owner = record { word = word; owner_cpu = owner }

abbrev pub thread : ℕ → Phase → ℕ → Thread
thread cpu p cli = record { cpu = cpu; phase = p; cli = cli }

module _ (rest word cpu : ℕ) (other owner : Option ℕ) where
  -- A move between phases that says the same of the words.
  pub moves :
      (p q : Phase) (cli k : ℕ)
      → share q ≡ share p
      → owns q cpu ≡ owns p cpu
      → k ≡ pushes q
      → Fits rest other word owner cpu p cli
      → Fits rest other word owner cpu q k
  moves p q cli k same_share same_owner k_lem f = record {
    sum = omega (arith, f.sum, same_share);
    bound = f.bound;
    owned = rw same_owner f.owned;
    alone = f.alone;
    balanced = k_lem;
  }

  gets_read :
      (p : Phase) (cli : ℕ)
      → is_read_lockable word ≡ true
      → share p ≡ 0
      → owns p cpu ≡ none
      → pushes p ≡ 0
      → Fits rest other word owner cpu p cli
      → Fits rest other (word + 1) owner cpu store_no_owner cli
  gets_read p cli free no_share no_owner no_cli f = record {
    sum = omega (arith, f.sum, no_share);
    bound = lockable-lt word f.bound free;
    owned = f.owned ∙ ap (either other) no_owner;
    alone = f.alone;
    balanced = f.balanced ∙ no_cli;
  }

  gets_write :
      (p : Phase) (cli : ℕ)
      → (word == unlocked) ≡ true
      → share p ≡ 0
      → owns p cpu ≡ none
      → pushes p ≡ 1
      → Fits rest other word owner cpu p cli
      → Fits rest other write_locked_all owner cpu store_owner cli
  gets_write p cli free no_share no_owner one_cli f =
      let zero_word = (==_iff word unlocked).0 free in
      record {
        sum = omega (arith, f.sum, no_share, zero_word);
        bound = omega arith;
        owned = f.owned ∙ ap (either other) no_owner;
        alone = f.alone;
        balanced = f.balanced ∙ one_cli;
      }

  pub access-Moved :
      (weak : Bool) (p : Phase) (cli : ℕ)
      → Fits rest other word owner cpu p cli
      → Moved rest other
          (shared word owner)
          cpu
          p
          (access weak (shared word owner) (thread cpu p cli) p)
  unfolding access try_write_lock
  access-Moved weak idle cli f = (f, refl)
  access-Moved weak reading cli f = (f, refl)
  access-Moved weak writing cli f = (f, refl)
  access-Moved weak want_read cli f = elim (Bool-cases (is_read_lockable word)) [
    | inl free ↦
        rw (try_read-won word f.bound free) (gets_read want_read cli free refl refl refl f, refl)
    | inr busy ↦
        rw (try_read-lost word busy)
          (moves want_read spin_read cli cli refl refl f.balanced f, refl)
  ]
  access-Moved weak spin_read cli f = elim (Bool-cases (is_read_lockable word)) [
    | inl free ↦ rw free (moves spin_read want_read cli cli refl refl f.balanced f, refl)
    | inr busy ↦ rw busy (f, refl)
  ]
  access-Moved weak once_read cli f = elim (Bool-cases (is_read_lockable word)) [
    | inl free ↦
        rw (try_read-won word f.bound free) (gets_read once_read cli free refl refl refl f, refl)
    | inr busy ↦
        rw (try_read-lost word busy) (moves once_read idle cli cli refl refl f.balanced f, refl)
  ]
  access-Moved weak store_no_owner cli f = (
    record {
      sum = f.sum;
      bound = f.bound;
      owned = ap (λ o. either o none) (sym (f.alone (omega (arith, f.sum, f.bound))));
      alone = f.alone;
      balanced = f.balanced;
    },
    refl,
  )
  access-Moved weak check_write cli f = elim (Bool-cases (is_owner owner cpu)) [
    | inl own ↦ rw own (refl, is_owner-eq owner cpu own)
    | inr free ↦ rw free (moves check_write want_write cli cli refl refl f.balanced f, refl)
  ]
  access-Moved true want_write cli f =
      (moves want_write spin_write cli cli refl refl f.balanced f, refl)
  access-Moved false want_write cli f = elim (Bool-cases (word == unlocked)) [
    | inl free ↦
        rw (try_write-won word free) (gets_write want_write cli free refl refl refl f, refl)
    | inr busy ↦
        rw (try_write-lost word busy)
          (moves want_write spin_write cli cli refl refl f.balanced f, refl)
  ]
  access-Moved weak spin_write cli f = elim (Bool-cases (word == unlocked)) [
    | inl free ↦ rw free (moves spin_write want_write cli cli refl refl f.balanced f, refl)
    | inr busy ↦ rw busy (f, refl)
  ]
  access-Moved weak check_once cli f = elim (Bool-cases (is_owner owner cpu)) [
    | inl own ↦ rw (own, f.balanced) (moves check_once idle cli 0 refl refl refl f, refl)
    | inr free ↦ rw free (moves check_once once_write cli cli refl refl f.balanced f, refl)
  ]
  access-Moved true once_write cli f =
      rw f.balanced (moves once_write idle cli 0 refl refl refl f, refl)
  access-Moved false once_write cli f = elim (Bool-cases (word == unlocked)) [
    | inl free ↦
        rw (try_write-won word free) (gets_write once_write cli free refl refl refl f, refl)
    | inr busy ↦
        rw (try_write-lost word busy, f.balanced)
          (moves once_write idle cli 0 refl refl refl f, refl)
  ]
  access-Moved weak store_owner cli f = (
    record {
      sum = f.sum;
      bound = f.bound;
      owned = ap (λ o. either o (some cpu)) (sym (f.alone (omega (arith, f.sum, f.bound))));
      alone = f.alone;
      balanced = f.balanced;
    },
    refl,
  )
  access-Moved weak clear_owner cli f = (
    record {
      sum = f.sum;
      bound = f.bound;
      owned = ap (λ o. either o none) (sym (f.alone (omega (arith, f.sum, f.bound))));
      alone = f.alone;
      balanced = f.balanced;
    },
    refl,
  )
  access-Moved weak unlock_write cli f = rw (write_unlock-eq word (omega (arith, f.sum, f.bound))) (
    record {
      sum = omega (arith, f.sum, f.bound);
      bound = omega arith;
      owned = f.owned;
      alone = f.alone;
      balanced = f.balanced;
    },
    refl,
  )
  access-Moved weak pop_cli_last cli f =
      rw f.balanced (moves pop_cli_last idle cli 0 refl refl refl f, refl)
