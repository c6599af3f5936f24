-- ===== src/Heap/Search.antt =====
-- `get_free_block` of libraries/increasing_heap_allocator: it finds a block, and asks for pages once
-- at most.
use emerald.Prelude.{
  ℕ, suc, ◌+◌, ◌*◌, ◌/◌, ◌≤◌, ◌<◌, ◌≡◌, ◌⊎◌, inl, inr, refl, false, none, some, List, arith, ok,
  ◌>>=◌, Post, Post-bind, ◌==◌, Bool-cases,
}
use emerald.Prelude.Words.{u64_mod}
use emerald.Heap.{
  HeapFreeBlock, HeapAllocator, PageAllocatorProvider, page_size, allocate_more_pages,
  get_free_block, align_up, best_fit,
}
use emerald.Heap.Fit.{Has, NoneFits, best_fit-IsLeast, IsLeast}
use emerald.Heap.Invariant.{PageLaws, Allocation, IsHeap}
use emerald.Heap.Grow.{NoneFits-HasFit, HasFit, allocate_more_pages-IsHeap}

module _ {P : Type 0} {provider : PageAllocatorProvider P} (laws : PageLaws provider) where
  -- What a search comes to: a block of the free list with room for the size.
  abbrev pub IsFound : ℕ → List Allocation → HeapFreeBlock × HeapAllocator P → Type 0
  IsFound size live (b, h) =
      IsHeap laws h live × Has b h.free_list × (size ≤ b.size) × (0 < h.total_heap_size)

  -- Where a free block has room, the search takes one, and asks for no pages.
  pub get_free_block-fits :
      (h : HeapAllocator P) (live : List Allocation) (size n fit : ℕ)
      → IsHeap laws h live
      → 0 < h.total_heap_size
      → size ≤ fit
      → HasFit fit h.free_list
      → (b : HeapFreeBlock) × (get_free_block provider (suc n) h size ≡ ok (b, h))
        × Has b h.free_list
        × (size ≤ b.size)
  unfolding get_free_block
  get_free_block-fits h live size n fit i pos le has = go (best_fit-IsLeast size h.free_list)
    where
      full : (h.total_heap_size == 0) ≡ false
      full = ground arith

      go :
          ((best_fit size none h.free_list ≡ none) × NoneFits size h.free_list)
            ⊎ ((b : HeapFreeBlock) × (best_fit size none h.free_list ≡ some b)
                × Has b h.free_list
                × (size ≤ b.size)
                × IsLeast size b.size h.free_list)
          → (b : HeapFreeBlock) × (get_free_block provider (suc n) h size ≡ ok (b, h))
            × Has b h.free_list
            × (size ≤ b.size)
      go (inl (e, none_fits)) = absurd (NoneFits-HasFit h.free_list size fit le none_fits has)
      go (inr (b, e, there, room, least)) = (b, rw (get_free_block, full, e) refl, there, room)

  -- On a heap that keeps its invariant, the search for a size, which is not 0 and at least a page
  -- below the end of the address space, comes to an end, with one call of itself at most: it returns
  -- a free block with room for the size, and the invariant holds, or it panics.
  pub get_free_block-IsFound :
      (h : HeapAllocator P) (live : List Allocation) (size : ℕ)
      → 0 < size
      → size + page_size ≤ u64_mod
      → IsHeap laws h live
      → Post (IsFound size live) (get_free_block provider 2 h size)
  unfolding get_free_block align_up
  get_free_block-IsFound h live size pos bound i = elim (Bool-cases (h.total_heap_size == 0)) [
    | inl empty ↦ rw (Post, get_free_block, empty) again
    | inr full ↦ elim (best_fit-IsLeast size h.free_list) [
      | inl (e, none_fits) ↦ rw (Post, get_free_block, full, e) again
      | inr (b, e, there, room, least) ↦
          rw (Post, get_free_block, full, e) (i, there, room, ground (arith, full))
    ]
  ]
    where
      bytes : ℕ
      bytes = align_up size page_size

      whole : (size ≤ bytes) × (bytes / page_size * page_size ≡ bytes)
      whole = (omega arith, omega arith)

      found :
          (h' : HeapAllocator P)
          → IsHeap laws h' live
            × HasFit (bytes / page_size * page_size) h'.free_list
            × (0 < h'.total_heap_size)
          → Post (IsFound size live) (get_free_block provider 1 h' bytes)
      found h' (i', fit, full) = go (
          get_free_block-fits h' live bytes 0 (bytes / page_size * page_size) i' full
            (omega (arith, whole.1)) fit)
        where
          go :
              ((b : HeapFreeBlock) × (get_free_block provider 1 h' bytes ≡ ok (b, h'))
                × Has b h'.free_list
                × (bytes ≤ b.size))
              → Post (IsFound size live) (get_free_block provider 1 h' bytes)
          go (b, e, there, room) = rw e (i', there, omega (arith, whole.0), full)

      again : Post (IsFound size live) (
          allocate_more_pages provider h (bytes / page_size) >>= λ h'.
          get_free_block provider 1 h' bytes)
      again =
          Post-bind _ _ (allocate_more_pages provider h (bytes / page_size)) _
            (allocate_more_pages-IsHeap laws h live (bytes / page_size) i) found
