-- ===== src/Heap/Invariant.antt =====
-- What holds of the heap of libraries/increasing_heap_allocator between two calls, with the
-- allocations that are held at that time.
use emerald.Prelude.{
  ℕ, ◌+◌, ◌-◌, ◌*◌, ◌%◌, ◌≤◌, ◌<◌, ◌≡◌, ◌⊎◌, Option, none, some, List, [], ◌∷◌, ok, Post,
}
use emerald.Prelude.Words.{u64_mod}
use emerald.Heap.{
  HeapFreeBlock, AllocatedHeapBlockInfo, HeapAllocator, PageAllocatorProvider, Layout, heap_magic,
  page_size, whole_layout,
}
use emerald.Heap.Place.{IsFree}
use emerald.Heap.Count.{count, total, inside, IsWhole}

-- The pages granted follow the end of the heap.
abbrev pub Granted : {P : Type 0} → (P → Type 0) → (P → ℕ) → ℕ → ℕ → Option (ℕ × P) → Type 0
Granted IsValid heap_end end bytes none = Unit
Granted IsValid heap_end end bytes (some (start, p)) =
    (start ≡ end) × (heap_end p ≡ end + bytes) × IsValid p

-- What the heap relies on of the pages it is given: they follow those it has, and the address
-- space does not end with them.
pub record PageLaws {P : Type 0} (provider : PageAllocatorProvider P) : Type 1 where
  pub IsValid : P → Type 0
  pub heap_end : P → ℕ
  pub heap_end-whole :
      (p : P) → IsValid p → (heap_end p % page_size ≡ 0) × (heap_end p + page_size ≤ u64_mod)
  pub allocate_pages-Post :
      (p : P) (pages : ℕ)
      → IsValid p
      → 0 < pages
      → Post
          (Granted IsValid heap_end (heap_end p) (pages * page_size))
          (provider.allocate_pages p pages)

-- An allocation that is held: the block it took, and where the caller's pointer stands in it.
pub record Allocation : Type 0 where
  pub base : ℕ
  pub taken : ℕ
  pub offset : ℕ
  pub layout : Layout

-- The header that `alloc` writes in front of it.
abbrev pub header_of : Allocation → AllocatedHeapBlockInfo
header_of w = record { magic = heap_magic; size = w.taken; pre_padding = w.offset }

abbrev pub taken_blocks : List Allocation → List HeapFreeBlock
taken_blocks [] = []
taken_blocks (w ∷ ws) = record { addr = w.base; size = w.taken } ∷ taken_blocks ws

-- The pointer is aligned, the header stands in front of it and tells the block, and the block has
-- room for the header and for all that was asked for, and it begins and ends at a multiple of 16.
abbrev pub IsHeld : (ℕ → AllocatedHeapBlockInfo) → Allocation → Type 0
IsHeld infos w =
    (infos (w.base + w.offset - 32) ≡ header_of w)
    × (32 ≤ w.offset)
    × (w.offset + w.layout.size ≤ w.taken)
    × ((w.base + w.offset) % w.layout.align ≡ 0)
    × ((w.base % 16 ≡ 0) × (w.taken % 16 ≡ 0))
    × ((r : ℕ × ℕ) × (whole_layout w.layout ≡ ok r) × (r.1 ≤ w.taken))

abbrev pub AllHeld : (ℕ → AllocatedHeapBlockInfo) → List Allocation → Type 0
AllHeld infos [] = Unit
AllHeld infos (w ∷ ws) = IsHeld infos w × AllHeld infos ws

-- The free list is in order and lies in the heap; the free blocks and the blocks of the
-- allocations share the heap's addresses out, each to one block; the sizes are accounted for; and
-- the next pages will follow the heap.
pub record IsHeap {P : Type 0} {provider : PageAllocatorProvider P} (laws : PageLaws provider)
    (h : HeapAllocator P) (live : List Allocation) : Type 0 where
  pub ordered : IsFree h.heap_start (h.heap_start + h.total_heap_size) h.free_list
  pub whole : IsWhole h.free_list
  pub partition :
      (a : ℕ)
      → count a h.free_list + count a (taken_blocks live) ≡ inside a h.heap_start h.total_heap_size
  pub free_total : total h.free_list ≡ h.free_size
  pub used_total : total (taken_blocks live) ≡ h.used_size
  pub sizes : h.free_size + h.used_size ≡ h.total_heap_size
  pub held : AllHeld h.infos live
  pub valid : laws.IsValid h.page_allocator
  pub contiguous :
      0 < h.total_heap_size → laws.heap_end h.page_allocator ≡ h.heap_start + h.total_heap_size

-- The allocation is one of the list, and the others are left.
abbrev pub Picks : Allocation → List Allocation → List Allocation → Type 0
Picks w [] rest = ⊥
Picks w (x ∷ xs) rest =
    ((x ≡ w) × (rest ≡ xs)) ⊎ ((rest' : List Allocation) × (rest ≡ x ∷ rest') × Picks w xs rest')
