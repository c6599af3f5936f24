-- ===== src/Heap/Sizes.antt =====
-- The size that `alloc` of libraries/increasing_heap_allocator asks for.
use emerald.Prelude.{
  ℕ, zero, suc, ◌+◌, ◌-◌, ◌*◌, ◌/◌, ◌%◌, ◌≤◌, ◌<◌, ◌≡◌, inl, inr, refl, ap, true, arith, leb, max,
  Post, Post-bind, ensure, ensure-Post, ensure_any, leb→le,
}
use native.Mathlib.Nat.{lt-div-mul-add, mul_assoc, suc-mul, zero-mul}
use emerald.Heap.{Layout, round_up, whole_layout}
use emerald.Heap.Offset.{Sorted, IsAlignment, Sorted-IsAlignment}

-- The size for a layout: a multiple of 16 with room for the header, the padding behind it and the
-- allocation, and no less than the alignment.
pub round_up_lem :
    (size a : ℕ) → 0 < a → (size ≤ round_up size a) × ((q : ℕ) × (round_up size a ≡ q * a))
unfolding round_up
round_up_lem size a pos = (omega (arith, upper), ((size + a - 1) / a, refl))
  where
    upper : size + a - 1 < (size + a - 1) / a * a + a
    upper = lt-div-mul-add pos

pub max_lem : (a : ℕ) → IsAlignment a → (m : ℕ) × (max a 16 ≡ m * 16) × (0 < m)
max_lem a al = go (Sorted-IsAlignment a al)
  where
    go : Sorted a → (m : ℕ) × (max a 16 ≡ m * 16) × (0 < m)
    go (inl e) = (1, omega arith, omega arith)
    go (inr (inl e)) = (1, omega arith, omega arith)
    go (inr (inr (inl e))) = (1, omega arith, omega arith)
    go (inr (inr (inr (inl e)))) = (1, omega arith, omega arith)
    go (inr (inr (inr (inr (inl e))))) = (1, omega arith, omega arith)
    go (inr (inr (inr (inr (inr (m, pos, e)))))) = (m * 2, omega arith, omega arith)

-- What `whole_layout` returns for a layout.
abbrev pub IsWholeLayout : Layout → ℕ → ℕ → Type 0
IsWholeLayout layout offset size =
    (offset + layout.size ≤ size)
    × (32 ≤ offset)
    × (size % 16 ≡ 0)
    × (layout.align ≤ size)
    × (layout.align ≤ 16 → offset ≡ 32)
    × (offset % 16 ≡ 0)
    × (size ≤ 0x7FFF_FFFF_FFFF_FFFF)

pub whole_layout-Post :
    (layout : Layout)
    → IsAlignment layout.align
    → Post (λ r. IsWholeLayout layout r.0 r.1) (whole_layout layout)
unfolding whole_layout
whole_layout-Post layout al = go (max_lem layout.align al)
  where
    align : ℕ
    align = max layout.align 16

    offset : ℕ
    offset = round_up 32 align

    size : ℕ
    size = round_up (offset + layout.size) align

    sizes :
        size ≤ 0x7FFF_FFFF_FFFF_FFFF
        → (m : ℕ) × (align ≡ m * 16) × (0 < m)
        → IsWholeLayout layout offset size
    sizes most (m, e, pos) = (
      (round_up_lem (offset + layout.size) align (omega arith)).0,
      (round_up_lem 32 align (omega arith)).0,
      multiple size (round_up_lem (offset + layout.size) align (omega arith)).1,
      no_less (round_up_lem (offset + layout.size) align (omega arith)).1 (
          omega (
            arith,
            (round_up_lem 32 align (omega arith)).0,
            (round_up_lem (offset + layout.size) align (omega arith)).0,
          )),
      λ le. rw (is_sixteen le) (omega arith),
      multiple offset (round_up_lem 32 align (omega arith)).1,
      most,
    )
      where
        no_less : ((q : ℕ) × (size ≡ q * align)) → 0 < size → layout.align ≤ size
        no_less (zero, h) lt = absurd (omega (arith, h, zero-mul align))
        no_less (suc q, h) lt = omega (arith, h, suc-mul q align)

        is_sixteen : layout.align ≤ 16 → align ≡ 16
        is_sixteen le = omega arith

        multiple : (n : ℕ) → ((q : ℕ) × (n ≡ q * align)) → n % 16 ≡ 0
        multiple n (q, h) = omega (arith, h, ap (λ x. q * x) e, mul_assoc q m 16)

    go :
        (m : ℕ) × (align ≡ m * 16) × (0 < m)
        → Post (λ r. IsWholeLayout layout r.0 r.1) (whole_layout layout)
    go h =
        Post-bind (λ u. Unit) _ (ensure (leb (round_up layout.size align) 0x7FFF_FFFF_FFFF_FFFF)) _
          (ensure_any _)
          (λ u k.
            Post-bind (λ v. leb size 0x7FFF_FFFF_FFFF_FFFF ≡ true) _
              (ensure (leb size 0x7FFF_FFFF_FFFF_FFFF)) _ (ensure-Post _)
              (λ v l. sizes (leb→le size 0x7FFF_FFFF_FFFF_FFFF l) h))
