-- ===== src/Heap/Alloc.antt =====
-- `alloc` of libraries/increasing_heap_allocator keeps the invariant of the heap.
use emerald.Prelude.{
  ℕ, ◌+◌, ◌-◌, ◌%◌, ◌≤◌, ◌<◌, ◌≡◌, inl, inr, refl, ◌∙◌, false, List, [], ◌∷◌, arith, leb, ltb, ◌==◌,
  if◌then◌else◌, Bool-cases, ==_of_ne, ==-self, ok, ensure-ok, ensure-panic, panic,
}
use emerald.Prelude.Words.{u64_mod}
use emerald.Heap.{
  HeapFreeBlock, AllocatedHeapBlockInfo, HeapAllocator, PageAllocatorProvider, Layout, remove_at,
  replace_at, taken_size, take_block, offset_in_block, is_aligned, whole_layout,
}
use emerald.Heap.Place.{IsFree}
use emerald.Heap.Count.{count, inside, IsWhole}
use emerald.Heap.Fit.{Has}
use emerald.Heap.Offset.{IsAlignment, offset_lem}
use emerald.Heap.Sizes.{IsWholeLayout}
use emerald.Heap.Carve.{Carves, Has-upper, remove_at-Carves, replace_at-Carves}
use emerald.Heap.Invariant.{PageLaws, Allocation, taken_blocks, IsHeap, AllHeld}

taken-Carves :
    (b : HeapFreeBlock) (bs : List HeapFreeBlock) (lo hi n : ℕ)
    → Has b bs
    → IsFree lo hi bs
    → IsWhole bs
    → n ≤ b.size
    → n % 16 ≡ 0
    → Carves lo hi b.addr (taken_size b.size n) bs (
        if ltb (n + 24) b.size
        then replace_at b.addr (record { addr = b.addr + n; size = b.size - n }) bs
        else remove_at b.addr bs)
      × (n ≤ taken_size b.size n)
      × (taken_size b.size n % 16 ≡ 0)
unfolding taken_size
taken-Carves b bs lo hi n h f w le m = elim (Bool-cases (ltb (n + 24) b.size)) [
  | inl e ↦ rw e (replace_at-Carves b bs lo hi n h f w (ground (arith, e)) m, omega arith, m)
  | inr e ↦ rw e (remove_at-Carves b bs lo hi h f w, le, (Has-upper b bs lo hi h f w).3)
]

-- A header written where no allocation lies leaves theirs.
AllHeld-set :
    (infos : ℕ → AllocatedHeapBlockInfo) (at : ℕ) (info : AllocatedHeapBlockInfo)
    (ws : List Allocation)
    → count at (taken_blocks ws) ≡ 0
    → AllHeld infos ws
    → AllHeld (λ a. if a == at then info else infos a) ws
AllHeld-set infos at info [] z h = tt
AllHeld-set infos at info (w ∷ ws) z h = (
  (
    rw (==_of_ne (w.base + w.offset - 32) at (λ e. ground (arith, e, z, h.0.1, h.0.2))) h.0.0,
    h.0.1,
    h.0.2,
    h.0.3,
    h.0.4,
    h.0.5,
  ),
  AllHeld-set infos at info ws (omega (arith, z)) h.1,
)

-- Of two counts that make up one byte of the heap, one is nothing.
other_is_zero :
    (a start taken lo size c c' l : ℕ)
    → c ≡ inside a start taken + c'
    → c + l ≡ inside a lo size
    → start ≤ a
    → a < start + taken
    → l ≡ 0
other_is_zero a start taken lo size c c' l e p le lt = ground (arith, e, p)

module _ {P : Type 0} {provider : PageAllocatorProvider P} (laws : PageLaws provider) where
  -- The pointer is that of a new allocation for the layout, and the invariant holds with it.
  abbrev pub IsAllocated : Layout → List Allocation → ℕ × HeapAllocator P → Type 0
  IsAllocated layout live (ptr, h) =
      (w : Allocation) × (w.base + w.offset ≡ ptr) × (w.layout ≡ layout) × IsHeap laws h (w ∷ live)

  -- A free block stands at a multiple of 16, and far from the end of the address space.
  pub free_block_lem :
      (h : HeapAllocator P) (live : List Allocation) (b : HeapFreeBlock)
      → IsHeap laws h live
      → 0 < h.total_heap_size
      → Has b h.free_list
      → (b.addr + b.size ≤ u64_mod) × (b.addr % 16 ≡ 0)
  free_block_lem h live b i pos has = (
    omega (arith, upper.0, (laws.heap_end-whole h.page_allocator i.valid).1, i.contiguous pos),
    upper.2,
  )
    where
      upper :
          (b.addr + b.size ≤ h.heap_start + h.total_heap_size)
          × (0 < b.size)
          × (b.addr % 16 ≡ 0)
          × (b.size % 16 ≡ 0)
      upper =
          Has-upper b h.free_list h.heap_start (h.heap_start + h.total_heap_size) has i.ordered
            i.whole

  -- A block with room for the allocation, and for what its alignment adds to it, is taken.
  pub take_block-ok :
      (h : HeapAllocator P) (live : List Allocation) (b : HeapFreeBlock) (layout : Layout)
      (offset size : ℕ)
      → IsHeap laws h live
      → 0 < h.total_heap_size
      → Has b h.free_list
      → IsAlignment layout.align
      → whole_layout layout ≡ ok (offset, size)
      → IsWholeLayout layout offset size
      → size + (offset_in_block b.addr layout.align - offset) ≤ b.size
      → (r : ℕ × HeapAllocator P) × (take_block h b layout.align offset size ≡ ok r)
        × IsAllocated layout live r
  unfolding take_block is_aligned
  take_block-ok h live b layout offset size i pos has al e w room = (
    _,
    ensure-ok (b.addr % 16 == 0) _ (ground (arith, upper.1))
        ∙ ensure-ok (leb 32 here) _ (ground (arith, off.0))
        ∙ ensure-ok (leb n b.size) _ (ground (arith, room))
        ∙ ensure-ok ((b.addr + here) % layout.align == 0) _ (ground (arith, off.1)),
    (
      record { base = b.addr; taken = taken; offset = here; layout = layout },
      refl,
      refl,
      record {
        ordered = carved.0.0;
        whole = carved.0.1;
        partition = λ a. omega (arith, carved.0.2 a, i.partition a);
        free_total = omega (arith, carved.0.3, i.free_total);
        used_total = omega (arith, i.used_total);
        sizes = omega (arith, i.sizes, carved.0.3, i.free_total);
        held = (
          (
            rw (==-self (b.addr + here - 32)) refl,
            off.0,
            omega (arith, w.0, carved.1),
            off.1,
            (upper.1, carved.2),
            ((offset, size), e, omega (arith, carved.1)),
          ),
          AllHeld-set h.infos (b.addr + here - 32) _ live
              (other_is_zero (b.addr + here - 32) b.addr taken h.heap_start h.total_heap_size _ _ _
                (carved.0.2 _) (i.partition _) (omega (arith, off.0))
                (omega (arith, w.0, w.1, off.0, carved.1)))
              i.held,
        );
        valid = i.valid;
        contiguous = i.contiguous;
      },
    ),
  )
    where
      here : ℕ
      here = offset_in_block b.addr layout.align

      n : ℕ
      n = size + (here - offset)

      upper : (b.addr + b.size ≤ u64_mod) × (b.addr % 16 ≡ 0)
      upper = free_block_lem h live b i pos has

      off : (32 ≤ here) × ((b.addr + here) % layout.align ≡ 0) × (here % 16 ≡ 0)
      off = offset_lem b.addr layout.align upper.1 (omega (arith, upper.0, w.3, room)) al

      taken : ℕ
      taken = taken_size b.size n

      carved :
          Carves h.heap_start (h.heap_start + h.total_heap_size) b.addr taken h.free_list (
            if ltb (n + 24) b.size
            then replace_at b.addr (record { addr = b.addr + n; size = b.size - n }) h.free_list
            else remove_at b.addr h.free_list)
          × (n ≤ taken)
          × (taken % 16 ≡ 0)
      carved =
          taken-Carves b h.free_list h.heap_start (h.heap_start + h.total_heap_size) n has i.ordered
            i.whole room (omega (arith, w.2, w.5, off.2))

  -- Of the assertions of `alloc` on the block it has found, only the one on its size can fail.
  pub take_block-panic :
      (h : HeapAllocator P) (live : List Allocation) (b : HeapFreeBlock) (layout : Layout)
      (offset size : ℕ)
      → IsHeap laws h live
      → 0 < h.total_heap_size
      → Has b h.free_list
      → IsAlignment layout.align
      → layout.align ≤ b.size
      → b.size < size + (offset_in_block b.addr layout.align - offset)
      → take_block h b layout.align offset size ≡ panic
  unfolding take_block is_aligned
  take_block-panic h live b layout offset size i pos has al le short =
      ensure-ok (b.addr % 16 == 0) _ (ground (arith, upper.1))
      ∙ ensure-ok (leb 32 (offset_in_block b.addr layout.align)) _ (ground (arith, off.0))
      ∙ ensure-panic (leb (size + (offset_in_block b.addr layout.align - offset)) b.size) _
          (not_leb _ _ short)
    where
      not_leb : (m n : ℕ) → n < m → leb m n ≡ false
      not_leb m n lt = ground arith

      upper : (b.addr + b.size ≤ u64_mod) × (b.addr % 16 ≡ 0)
      upper = free_block_lem h live b i pos has

      off :
          (32 ≤ offset_in_block b.addr layout.align)
          × ((b.addr + offset_in_block b.addr layout.align) % layout.align ≡ 0)
          × (offset_in_block b.addr layout.align % 16 ≡ 0)
      off = offset_lem b.addr layout.align upper.1 (omega (arith, upper.0, le)) al
