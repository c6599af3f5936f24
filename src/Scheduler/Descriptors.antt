-- ===== src/Scheduler/Descriptors.antt =====
-- kernel/src/process/mod.rs: the descriptors of open files, over sequences of calls.
use emerald.Prelude.{
  ℕ, suc, ◌+◌, ◌%◌, ◌≤◌, ◌<◌, ◌≡◌, refl, sym, ap, ◌∙◌, ◌⊎◌, ◌++◌, inl, inr, Option, none, some,
  List, [], ◌∷◌, length, All, Outcome, ok, ◌>>=◌, ◌>>◌, ensure, bind-ok, ensure-ok, ltb, ltb→lt,
  Bool-cases, arith,
}
use mathlib.Core.Path.{subst}
use emerald.Prelude.Words.{u64_mod}
use emerald.Scheduler.Process.{Map, get_mut, insert, remove, is_none}
use emerald.Scheduler.Files.{Files, push_fs_node, take_fs_node, put_fs_node, allocate}
use emerald.Scheduler.Tables.{
  IsBelow, IsBelow-more, get_mut-below, insert-IsBelow, remove-IsBelow, IsOrdered, insert-IsOrdered,
  remove-IsOrdered, get_mut-remove,
}

-- What a process does with its files: it opens one, closes one, or takes one out and puts it back.
pub data Operation (A : Type 0) : Type 0 where
  open_file : A → Operation A
  close_file : ℕ → Operation A
  use_file : ℕ → (A → A) → Operation A

-- Numbers that go up, from a bound.
abbrev pub GoUp : ℕ → List ℕ → Type 0
GoUp n [] = Unit
GoUp n (k ∷ ks) = (n ≤ k) × GoUp (suc k) ks

GoUp-less : (n n' : ℕ) (ks : List ℕ) → n' ≤ n → GoUp n ks → GoUp n' ks
GoUp-less n n' [] h g = tt
GoUp-less n n' (k ∷ ks) h (g, gs) = (omega (arith, h, g), gs)

module _ {A : Type 0} where
  -- The table is in order, and its descriptors are all below the next one.
  abbrev pub IsFiles : Files A → Type 0
  IsFiles s = IsOrdered s.open_filesystem_nodes × All (IsBelow s.next_id) s.open_filesystem_nodes

  -- The descriptor that the operation hands out.
  abbrev pub operate : Operation A → Files A → Outcome (List ℕ × Files A)
  operate (open_file file) s = push_fs_node file s >>= λ r. ok (r.0 ∷ [], r.1)
  operate (close_file fd) s = ok ([], (take_fs_node fd s).1)
  operate (use_file fd f) s = elim ((take_fs_node fd s).0) [
    | none ↦ ok ([], s)
    | some file ↦ put_fs_node fd (f file) (take_fs_node fd s).1 >>= λ s'. ok ([], s')
  ]

  abbrev pub operate_all : List (Operation A) → Files A → Outcome (List ℕ × Files A)
  operate_all [] s = ok ([], s)
  operate_all (o ∷ os) s = operate o s >>= λ r. operate_all os r.1 >>= λ r'. ok (r.0 ++ r'.0, r'.1)

  abbrev Operated : Files A → Outcome (List ℕ × Files A) → Type 0
  Operated s o =
      (fds : List ℕ) × (s' : Files A) × (o ≡ ok (fds, s'))
      × IsFiles s'
      × (s'.next_id ≤ suc s.next_id)
      × (((fds ≡ []) × (s.next_id ≤ s'.next_id))
          ⊎ ((fds ≡ s.next_id ∷ []) × (s'.next_id ≡ suc s.next_id)))

  open_file-Operated :
      (file : A) (s : Files A)
      → IsFiles s
      → suc s.next_id < u64_mod
      → Operated s (operate (open_file file) s)
  unfolding push_fs_node
  open_file-Operated file s (o, b) room =
      let n = s.next_id in
      let m = s.open_filesystem_nodes in
      let s' = record s { next_id = suc n % u64_mod; open_filesystem_nodes = insert n file m } in
      (
        n ∷ [],
        s',
        bind-ok (push_fs_node file s) (n, s') (λ r. ok (r.0 ∷ [], r.1))
            (bind-ok (put_fs_node n file (allocate s).1) s' (λ s''. ok (n, s''))
              (ensure-ok (is_none (get_mut n m)) (λ u. ok s')
                (ap is_none (get_mut-below n n m (omega arith) b)))),
        (
          insert-IsOrdered n file m o,
          insert-IsBelow (suc n % u64_mod) n file m (omega (arith, room))
              (IsBelow-more n (suc n % u64_mod) m (omega (arith, room)) b),
        ),
        omega (arith, room),
        inr (refl, omega (arith, room)),
      )

  close_file-Operated : (fd : ℕ) (s : Files A) → IsFiles s → Operated s (operate (close_file fd) s)
  close_file-Operated fd s (o, b) = (
    [],
    (take_fs_node fd s).1,
    refl,
    (
      remove-IsOrdered fd s.open_filesystem_nodes o,
      remove-IsBelow s.next_id fd s.open_filesystem_nodes b,
    ),
    omega arith,
    inl (refl, omega arith),
  )

  get_mut-IsBelow : (n k : ℕ) (a : A) (m : Map A) → All (IsBelow n) m → get_mut k m ≡ some a → k < n
  get_mut-IsBelow n k a m b e = elim (Bool-cases (ltb k n)) [
    | inl lt ↦ ltb→lt k n lt
    | inr ge ↦ absurd (clash (sym (get_mut-below n k m (ground (arith, ge)) b) ∙ e))
  ]
    where
      clash : none ≡ some a → ⊥
      clash h = cc h

  use_file-Operated :
      (fd : ℕ) (f : A → A) (s : Files A) → IsFiles s → Operated s (operate (use_file fd f) s)
  use_file-Operated fd f s (o, b) = go (get_mut fd s.open_filesystem_nodes) refl
    where
      m : Map A
      m = s.open_filesystem_nodes

      go :
          (held : Option A)
          → get_mut fd m ≡ held
          → Operated s (elim held [
            | none ↦ ok ([], s)
            | some file ↦ put_fs_node fd (f file) (take_fs_node fd s).1 >>= λ s'. ok ([], s')
          ])
      go none e = ([], s, refl, (o, b), omega arith, inl (refl, omega arith))
      go (some file) e =
          let s' = record s { open_filesystem_nodes = insert fd (f file) (remove fd m) } in
          (
            [],
            s',
            ap (λ held. ensure (is_none held) >> ok s' >>= λ s''. ok ([], s''))
                (get_mut-remove fd m o),
            (
              insert-IsOrdered fd (f file) (remove fd m) (remove-IsOrdered fd m o),
              insert-IsBelow s.next_id fd (f file) (remove fd m)
                  (get_mut-IsBelow s.next_id fd file m b e) (remove-IsBelow s.next_id fd m b),
            ),
            omega arith,
            inl (refl, omega arith),
          )

  operate-Operated :
      (o : Operation A) (s : Files A)
      → IsFiles s
      → suc s.next_id < u64_mod
      → Operated s (operate o s)
  operate-Operated (open_file file) s h room = open_file-Operated file s h room
  operate-Operated (close_file fd) s h room = close_file-Operated fd s h
  operate-Operated (use_file fd f) s h room = use_file-Operated fd f s h

  -- A table that is in order, with all its descriptors below the next one, stays so over any sequence
  -- of calls that open, close and use files, as long as fewer than 2 ^ 64 are opened. From such a
  -- table no call panics, and the descriptors that are handed out go up: none is handed out twice. A
  -- table that `attach_fs_node_to_fd` has made need not be in this order.
  pub operate_all-GoUp :
      (os : List (Operation A)) (s : Files A)
      → IsFiles s
      → s.next_id + length os < u64_mod
      → (fds : List ℕ) × (s' : Files A) × (operate_all os s ≡ ok (fds, s'))
        × IsFiles s'
        × GoUp s.next_id fds
  operate_all-GoUp [] s h room = ([], s, refl, h, tt)
  operate_all-GoUp (o ∷ os) s h room =
      let (now, s₁, e, h₁, bound, what) = operate-Operated o s h (omega (arith, room)) in
      let (later, s₂, e', h₂, up) = operate_all-GoUp os s₁ h₁ (omega (arith, room, bound)) in
      (
        now ++ later,
        s₂,
        bind-ok (operate o s) (now, s₁) _ e
            ∙ bind-ok (operate_all os s₁) (later, s₂) (λ r. ok (now ++ r.0, r.1)) e',
        h₂,
        elim what [
          | inl (nil, le) ↦
              subst (λ ks. GoUp s.next_id (ks ++ later)) (sym nil)
                (GoUp-less s₁.next_id s.next_id later le up)
          | inr (one, next) ↦
              subst (λ ks. GoUp s.next_id (ks ++ later)) (sym one)
                (omega arith, subst (λ n. GoUp n later) next up)
        ],
      )
