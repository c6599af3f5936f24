-- ===== src/Memory/Layout.antt =====
-- kernel/src/memory_management/memory_layout.rs: the kernel's address map and the alignment helpers.
use emerald.Prelude.{
  ℕ, ◌+◌, ◌-◌, ◌*◌, ◌/◌, ◌%◌, ◌≤◌, ◌<◌, ◌≡◌, Bool, arith, ltb, leb, ◌==◌, ◌&&◌, Outcome, ok, ◌>>◌,
  ensure,
}
use emerald.Prelude.Words.{u64_mod}

abbrev pub page_4k : ℕ
page_4k = 0x1000

abbrev pub kernel_base : ℕ
kernel_base = 0xFFFF_FFFF_8000_0000

abbrev pub extended_offset : ℕ
extended_offset = 0x10_0000

abbrev pub kernel_link : ℕ
kernel_link = kernel_base + extended_offset

abbrev pub kernel_mapped_size : ℕ
kernel_mapped_size = 0x800_0000

abbrev pub kernel_end : ℕ
kernel_end = kernel_base + kernel_mapped_size

abbrev pub kernel_heap_base : ℕ
kernel_heap_base = kernel_end

abbrev pub kernel_heap_size : ℕ
kernel_heap_size = 0x100_0000

abbrev pub intr_stack_size : ℕ
intr_stack_size = page_4k * 32

abbrev pub intr_stack_entry_size : ℕ
intr_stack_entry_size = intr_stack_size + page_4k

abbrev pub intr_stack_base : ℕ
intr_stack_base = kernel_heap_base + kernel_heap_size

abbrev pub intr_stack_total_size : ℕ
intr_stack_total_size = intr_stack_entry_size * 7

abbrev pub kernel_extra_memory_base : ℕ
kernel_extra_memory_base = intr_stack_base + intr_stack_total_size

abbrev pub kernel_last_possible_addr : ℕ
kernel_last_possible_addr = 0xFFFF_FFFF_FFFF_F000

abbrev pub kernel_extra_memory_size : ℕ
kernel_extra_memory_size = kernel_last_possible_addr - kernel_extra_memory_base

-- The mask `!(2 ^ k - 1)` clears the low `k` bits: `x & mask` is `x - x % 2 ^ k`. Every caller
-- passes a power of two. The sum of `align_up` wraps in a release build.
unfoldable pub align_down : ℕ → ℕ → ℕ
align_down addr alignment = addr - addr % alignment

unfoldable pub align_up : ℕ → ℕ → ℕ
unfolding align_down
align_up addr alignment = align_down ((addr + alignment + u64_mod - 1) % u64_mod) alignment

unfoldable pub is_aligned : ℕ → ℕ → Bool
is_aligned addr alignment = addr % alignment == 0

-- Returns the aligned start, the aligned size and the offset of `addr` in it.
unfoldable pub align_range : ℕ → ℕ → ℕ → Outcome (ℕ × ℕ × ℕ)
unfolding align_up align_down is_aligned
align_range addr size alignment = do
  let start_aligned = align_down addr alignment
  let end_aligned = align_up ((addr + size) % u64_mod) alignment
  let aligned_size = (end_aligned + u64_mod - start_aligned) % u64_mod
  ensure (ltb 0 aligned_size)
  ensure (is_aligned aligned_size alignment)
  ok (start_aligned, aligned_size, addr - start_aligned)

-- The debug assertions hold at every call below; a release build does not check them.
unfoldable pub virtual2physical : ℕ → Outcome ℕ
virtual2physical addr = do
  ensure (leb kernel_base addr && leb addr (kernel_base + kernel_mapped_size))
  ok (addr - kernel_base)

unfoldable pub physical2virtual : ℕ → Outcome ℕ
physical2virtual addr = do ensure (ltb addr kernel_mapped_size); ok (addr + kernel_base)

-- At page granularity, and where the range ends at least a page before the end of the address
-- space, `align_range` returns whole pages that cover the range, and no page more at either end.
pub align_range_covers :
    (addr size : ℕ)
    → 0 < size
    → addr + size + page_4k ≤ u64_mod
    → (start aligned_size offset : ℕ) × (align_range addr size page_4k
        ≡ ok (start, aligned_size, offset))
      × (start % page_4k ≡ 0)
      × (aligned_size % page_4k ≡ 0)
      × (0 < aligned_size)
      × (start + offset ≡ addr)
      × (offset < page_4k)
      × (addr + size ≤ start + aligned_size)
      × (start + aligned_size < addr + size + page_4k)
unfolding align_range
align_range_covers addr size pos fits = (
  start,
  up - start,
  addr % page_4k,
  ground (arith, up_lem, size_lem, size_pos, size_whole),
  omega arith,
  omega arith,
  omega arith,
  omega arith,
  omega arith,
  omega arith,
  omega arith,
)
  where
    start : ℕ
    start = addr - addr % page_4k

    up : ℕ
    up = addr + size + 4095 - (addr + size + 4095) % page_4k

    up_lem : (addr + size) % u64_mod + page_4k + u64_mod - 1 ≡ addr + size + 4095 + u64_mod
    up_lem = omega arith

    size_lem :
        (((addr + size) % u64_mod + page_4k + u64_mod - 1) % u64_mod
            - ((addr + size) % u64_mod + page_4k + u64_mod - 1) % u64_mod % page_4k
            + u64_mod
            - start)
          % u64_mod
        ≡ up - start
    size_lem = omega arith

    size_pos : 0 < up - start
    size_pos = omega arith

    size_whole : (up - start) % page_4k ≡ 0
    size_whole = omega arith

pub align_down-aligned : (addr : ℕ) → addr % page_4k ≡ 0 → align_down addr page_4k ≡ addr
unfolding align_down
align_down-aligned addr h = omega arith

pub align_up-aligned :
    (addr : ℕ) → addr % page_4k ≡ 0 → addr + page_4k ≤ u64_mod → align_up addr page_4k ≡ addr
unfolding align_up
align_up-aligned addr h fits = omega arith

-- Any other address is rounded to the page that it lies in, or to the next one.
pub align_down-page : (addr : ℕ) → align_down addr page_4k ≡ addr / page_4k * page_4k
unfolding align_down
align_down-page addr = omega arith

pub align_up-page :
    (addr : ℕ)
    → addr + page_4k ≤ u64_mod
    → align_up addr page_4k ≡ (addr + page_4k - 1) / page_4k * page_4k
unfolding align_up
align_up-page addr fits = omega arith
