-- ===== src/Heap/Offset.antt =====
-- The sizes and the offsets that `alloc` of libraries/increasing_heap_allocator computes.
use emerald.Prelude.{
  ℕ, zero, suc, ◌+◌, ◌-◌, ◌*◌, ◌/◌, ◌%◌, ◌^◌, ◌≤◌, ◌<◌, ◌≡◌, ◌⊎◌, inl, inr, sym, ap, arith, ltb,
  Bool-cases,
}
use emerald.Prelude.Words.{u64_mod}
use native.Mathlib.Nat.{
  mod-eq-sub-div-mul, div-mul-le_self, lt-div-mul-add, mul-mod_left, mul_assoc, pow-suc, suc-mul,
}
use mathlib.Core.Path.{subst}
use emerald.Heap.{align_up, offset_in_block}

-- Every alignment is a power of two: one of the small ones, or a multiple of 32.
abbrev pub IsAlignment : ℕ → Type 0
IsAlignment a = (k : ℕ) × (a ≡ 2 ^ k)

abbrev pub Sorted : ℕ → Type 0
Sorted a = (a ≡ 1) ⊎ (a ≡ 2) ⊎ (a ≡ 4) ⊎ (a ≡ 8) ⊎ (a ≡ 16) ⊎ ((m : ℕ) × (0 < m) × (a ≡ m * 32))

pow_pos : (k : ℕ) → 0 < 2 ^ k
pow_pos zero = omega arith
pow_pos (suc k) = omega (arith, pow-suc 2 k, pow_pos k)

sort_lem : (k : ℕ) → Sorted (2 ^ k)
sort_lem zero = inl (omega arith)
sort_lem (suc zero) = inr (inl (omega arith))
sort_lem (suc (suc zero)) = inr (inr (inl (omega arith)))
sort_lem (suc (suc (suc zero))) = inr (inr (inr (inl (omega arith))))
sort_lem (suc (suc (suc (suc zero)))) = inr (inr (inr (inr (inl (omega arith)))))
sort_lem (suc (suc (suc (suc (suc k))))) = inr (
    inr (
      inr (
        inr (
          inr (
            2 ^ k,
            pow_pos k,
            omega (
              arith,
              pow-suc 2 k,
              pow-suc 2 (suc k),
              pow-suc 2 (suc (suc k)),
              pow-suc 2 (suc (suc (suc k))),
              pow-suc 2 (suc (suc (suc (suc k)))),
            ),
          )))))

pub Sorted-IsAlignment : (a : ℕ) → IsAlignment a → Sorted a
Sorted-IsAlignment a (k, e) = subst Sorted (sym e) (sort_lem k)

module _ (base a : ℕ) (pos : 0 < a) (fits : base + a ≤ u64_mod) where
  -- `align_up` returns the first multiple of the alignment from the address on.
  pub align_up_lem : (q : ℕ) × (align_up base a ≡ q * a) × (base ≤ q * a) × (q * a < base + a)
  unfolding align_up
  align_up_lem = (
    (base + a - 1) / a,
    rw (wraps, mod-eq-sub-div-mul (base + a - 1) a)
        (omega (arith, div-mul-le_self (base + a - 1) a)),
    omega (arith, upper),
    omega (arith, div-mul-le_self (base + a - 1) a),
  )
    where
      wraps : (base + a + u64_mod - 1) % u64_mod ≡ base + a - 1
      wraps = omega arith

      upper : base + a - 1 < (base + a - 1) / a * a + a
      upper = lt-div-mul-add pos

  -- From 32 on, the offset takes the block's address to a multiple of the alignment, and has room
  -- for the header.
  offset_large :
      32 ≤ a → (32 ≤ offset_in_block base a) × ((q : ℕ) × (base + offset_in_block base a ≡ q * a))
  unfolding offset_in_block
  offset_large large = go align_up_lem
    where
      go :
          ((q : ℕ) × (align_up base a ≡ q * a) × (base ≤ q * a) × (q * a < base + a))
          → (32 ≤ offset_in_block base a) × ((q : ℕ) × (base + offset_in_block base a ≡ q * a))
      go (q, e, le, lt) = elim (Bool-cases (ltb (q * a - base) 32)) [
        | inl small ↦
            rw (e, small) (ground (arith, small), (suc q, ground (arith, small, suc-mul q a)))
        | inr big ↦ rw (e, big) (ground (arith, big), (q, omega arith))
      ]

abbrev pub IsSmall : ℕ → Type 0
IsSmall a = (a ≡ 1) ⊎ (a ≡ 2) ⊎ (a ≡ 4) ⊎ (a ≡ 8) ⊎ (a ≡ 16)

-- The small alignments: a block is aligned to them already.
align_up-small :
    (base a : ℕ)
    → base % 16 ≡ 0
    → base + a ≤ u64_mod
    → IsSmall a
    → (a ≤ 16) × (align_up base a ≡ base) × ((base + 32) % a ≡ 0)
unfolding align_up
align_up-small base a whole fits (inl e) = rw e (omega arith, omega arith, omega arith)
align_up-small base a whole fits (inr (inl e)) = rw e (omega arith, omega arith, omega arith)
align_up-small base a whole fits (inr (inr (inl e))) = rw e (omega arith, omega arith, omega arith)
align_up-small base a whole fits (inr (inr (inr (inl e)))) =
    rw e (omega arith, omega arith, omega arith)
align_up-small base a whole fits (inr (inr (inr (inr e)))) =
    rw e (omega arith, omega arith, omega arith)

pub offset_small :
    (base a : ℕ) → base % 16 ≡ 0 → base + a ≤ u64_mod → IsSmall a → offset_in_block base a ≡ 32
unfolding offset_in_block
offset_small base a whole fits small = ground (arith, align_up-small base a whole fits small)

-- The allocation of a block at a multiple of 16 is aligned, leaves room for the header in front,
-- and the offset is a multiple of 16.
pub offset_lem :
    (base a : ℕ)
    → base % 16 ≡ 0
    → base + a ≤ u64_mod
    → IsAlignment a
    → (32 ≤ offset_in_block base a)
      × ((base + offset_in_block base a) % a ≡ 0)
      × (offset_in_block base a % 16 ≡ 0)
offset_lem base a whole fits al = go (Sorted-IsAlignment a al)
  where
    Holds : Type 0
    Holds =
        (32 ≤ offset_in_block base a)
        × ((base + offset_in_block base a) % a ≡ 0)
        × (offset_in_block base a % 16 ≡ 0)

    small_case : IsSmall a → Holds
    small_case s =
        rw (offset_small base a whole fits s)
          (omega arith, (align_up-small base a whole fits s).2, omega arith)

    large_case :
        (m : ℕ)
        → a ≡ m * 32
        → (32 ≤ offset_in_block base a) × ((q : ℕ) × (base + offset_in_block base a ≡ q * a))
        → Holds
    large_case m e (room, (q, at)) =
        (room, rw at (mul-mod_left q a), omega (arith, at, ap (λ x. q * x) e, mul_assoc q m 32))

    go : Sorted a → Holds
    go (inl e) = small_case (inl e)
    go (inr (inl e)) = small_case (inr (inl e))
    go (inr (inr (inl e))) = small_case (inr (inr (inl e)))
    go (inr (inr (inr (inl e)))) = small_case (inr (inr (inr (inl e))))
    go (inr (inr (inr (inr (inl e))))) = small_case (inr (inr (inr (inr e))))
    go (inr (inr (inr (inr (inr (m, pos, e)))))) =
        large_case m e (offset_large base a (omega arith) fits (omega arith))

-- Up to 16, the header alone decides the offset.
pub offset_sixteen :
    (base a : ℕ)
    → base % 16 ≡ 0
    → base + a ≤ u64_mod
    → IsAlignment a
    → a ≤ 16
    → offset_in_block base a ≡ 32
offset_sixteen base a whole fits al le = go (Sorted-IsAlignment a al)
  where
    go : Sorted a → offset_in_block base a ≡ 32
    go (inl e) = offset_small base a whole fits (inl e)
    go (inr (inl e)) = offset_small base a whole fits (inr (inl e))
    go (inr (inr (inl e))) = offset_small base a whole fits (inr (inr (inl e)))
    go (inr (inr (inr (inl e)))) = offset_small base a whole fits (inr (inr (inr (inl e))))
    go (inr (inr (inr (inr (inl e))))) = offset_small base a whole fits (inr (inr (inr (inr e))))
    go (inr (inr (inr (inr (inr (m, pos, e)))))) = absurd (omega arith)
