-- ===== src/Scheduler/Tables.antt =====
-- kernel/src/process/mod.rs: a `BTreeMap` of open files, its keys in order.
use emerald.Prelude.{
  ℕ, ◌≤◌, ◌<◌, ◌≡◌, refl, sym, ==_iff, inl, inr, none, some, [], ◌∷◌, All, false, ltb, ltb→lt, ◌==◌,
  ==-self, ==_of_ne, Bool-cases, arith,
}
use mathlib.Core.Path.{subst}
use emerald.Scheduler.Process.{Map, get_mut, insert, remove}

module _ {A : Type 0} where
  abbrev pub IsBelow : ℕ → ℕ × A → Type 0
  IsBelow n (k, a) = k < n

  pub IsBelow-more : (n n' : ℕ) (m : Map A) → n ≤ n' → All (IsBelow n) m → All (IsBelow n') m
  IsBelow-more n n' [] h b = tt
  IsBelow-more n n' ((k, a) ∷ m) h (b, bs) = (omega (arith, h, b), IsBelow-more n n' m h bs)

  pub get_mut-below : (n k : ℕ) (m : Map A) → n ≤ k → All (IsBelow n) m → get_mut k m ≡ none
  get_mut-below n k [] h b = refl
  get_mut-below n k ((j, a) ∷ m) h (b, bs) =
      rw (==_of_ne k j (λ e. omega (arith, h, b, e))) (get_mut-below n k m h bs)

  pub insert-IsBelow :
      (n k : ℕ) (a : A) (m : Map A) → k < n → All (IsBelow n) m → All (IsBelow n) (insert k a m)
  insert-IsBelow n k a [] h b = (h, tt)
  insert-IsBelow n k a ((j, c) ∷ m) h (b, bs) = elim (Bool-cases (ltb k j)) [
    | inl lt ↦ rw lt (h, (b, bs))
    | inr ge ↦ elim (Bool-cases (k == j)) [
      | inl e ↦ rw (ge, e) (h, bs)
      | inr ne ↦ rw (ge, ne) (b, insert-IsBelow n k a m h bs)
    ]
  ]

  pub remove-IsBelow : (n k : ℕ) (m : Map A) → All (IsBelow n) m → All (IsBelow n) (remove k m)
  remove-IsBelow n k [] b = tt
  remove-IsBelow n k ((j, a) ∷ m) (b, bs) = elim (Bool-cases (k == j)) [
    | inl e ↦ rw e bs
    | inr ne ↦ rw ne (b, remove-IsBelow n k m bs)
  ]

  pub get_mut-insert_above :
      (k : ℕ) (a : A) (m : Map A) → All (IsBelow k) m → get_mut k (insert k a m) ≡ some a
  get_mut-insert_above k a [] b = rw (==-self k) refl
  get_mut-insert_above k a ((j, c) ∷ m) (b, bs) =
      rw
        (
          later j b,
          ==_of_ne k j (λ e. omega (arith, b, e)),
          ==_of_ne k j (λ e. omega (arith, b, e)),
        )
        (get_mut-insert_above k a m bs)
    where
      later : (j : ℕ) → j < k → ltb k j ≡ false
      later j h = ground (arith, h)

  -- The keys go up.
  abbrev pub IsAbove : ℕ → ℕ × A → Type 0
  IsAbove n (k, a) = n < k

  abbrev pub IsOrdered : Map A → Type 0
  IsOrdered [] = Unit
  IsOrdered ((k, a) ∷ m) = All (IsAbove k) m × IsOrdered m

  pub IsAbove-less : (n n' : ℕ) (m : Map A) → n' < n → All (IsAbove n) m → All (IsAbove n') m
  IsAbove-less n n' [] h b = tt
  IsAbove-less n n' ((k, a) ∷ m) h (b, bs) = (omega (arith, h, b), IsAbove-less n n' m h bs)

  pub insert-IsAbove :
      (n k : ℕ) (a : A) (m : Map A) → n < k → All (IsAbove n) m → All (IsAbove n) (insert k a m)
  insert-IsAbove n k a [] h b = (h, tt)
  insert-IsAbove n k a ((j, c) ∷ m) h (b, bs) = elim (Bool-cases (ltb k j)) [
    | inl lt ↦ rw lt (h, (b, bs))
    | inr ge ↦ elim (Bool-cases (k == j)) [
      | inl e ↦ rw (ge, e) (h, bs)
      | inr ne ↦ rw (ge, ne) (b, insert-IsAbove n k a m h bs)
    ]
  ]

  pub insert-IsOrdered : (k : ℕ) (a : A) (m : Map A) → IsOrdered m → IsOrdered (insert k a m)
  insert-IsOrdered k a [] o = (tt, tt)
  insert-IsOrdered k a ((j, c) ∷ m) (b, o) = elim (Bool-cases (ltb k j)) [
    | inl lt ↦ rw lt ((ltb→lt k j lt, IsAbove-less j k m (ltb→lt k j lt) b), (b, o))
    | inr ge ↦ elim (Bool-cases (k == j)) [
      | inl e ↦ rw (ge, e) (subst (λ n. All (IsAbove n) m) (sym ((==_iff k j).0 e)) b, o)
      | inr ne ↦
          rw (ge, ne) (insert-IsAbove j k a m (ground (arith, ge, ne)) b, insert-IsOrdered k a m o)
    ]
  ]

  pub remove-IsAbove : (n k : ℕ) (m : Map A) → All (IsAbove n) m → All (IsAbove n) (remove k m)
  remove-IsAbove n k [] b = tt
  remove-IsAbove n k ((j, a) ∷ m) (b, bs) = elim (Bool-cases (k == j)) [
    | inl e ↦ rw e bs
    | inr ne ↦ rw ne (b, remove-IsAbove n k m bs)
  ]

  pub remove-IsOrdered : (k : ℕ) (m : Map A) → IsOrdered m → IsOrdered (remove k m)
  remove-IsOrdered k [] o = tt
  remove-IsOrdered k ((j, a) ∷ m) (b, o) = elim (Bool-cases (k == j)) [
    | inl e ↦ rw e o
    | inr ne ↦ rw ne (remove-IsAbove j k m b, remove-IsOrdered k m o)
  ]

  pub get_mut-above : (k : ℕ) (m : Map A) → All (IsAbove k) m → get_mut k m ≡ none
  get_mut-above k [] b = refl
  get_mut-above k ((j, a) ∷ m) (b, bs) =
      rw (==_of_ne k j (λ e. omega (arith, b, e))) (get_mut-above k m bs)

  pub get_mut-remove : (k : ℕ) (m : Map A) → IsOrdered m → get_mut k (remove k m) ≡ none
  get_mut-remove k [] o = refl
  get_mut-remove k ((j, a) ∷ m) (b, o) = elim (Bool-cases (k == j)) [
    | inl e ↦ rw e (get_mut-above k m (subst (λ n. All (IsAbove n) m) (sym ((==_iff k j).0 e)) b))
    | inr ne ↦ rw (ne, ne) (get_mut-remove k m o)
  ]
