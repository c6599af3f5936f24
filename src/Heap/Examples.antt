-- ===== src/Heap/Examples.antt =====
-- Tests of the heap of libraries/increasing_heap_allocator, and the inputs at which its theorems
-- apply.
use emerald.Prelude.{
  ℕ, ◌+◌, ◌-◌, ◌≤◌, ◌≡◌, ◌⊎◌, refl, inl, none, some, List, [], ◌∷◌, arith, ok, panic, Post, ◌==◌,
  if◌then◌else◌,
}
use emerald.Memory.Layout.{kernel_heap_base}
use emerald.Heap.{
  HeapFreeBlock, AllocatedHeapBlockInfo, HeapAllocator, Layout, heap_magic, free_block, best_fit,
  whole_layout, get_free_block, new, stats, alloc, dealloc,
}
use emerald.Heap.Place.{IsApart, place}
use emerald.Heap.Count.{count, total, inside}
use emerald.Heap.Fit.{Has, NoneFits, IsLeast, best_fit-IsLeast}
use emerald.Heap.Release.{free_block-place}
use emerald.Heap.Invariant.{Allocation, taken_blocks, IsHeap, AllHeld}
use emerald.Heap.Search.{IsFound, get_free_block-IsFound}
use emerald.Heap.Alloc.{IsAllocated}
use emerald.Heap.Calls.{new-IsHeap, alloc-IsAllocated, alloc-fits}
use emerald.Heap.Free.{dealloc-IsHeap}
use emerald.Heap.Kernel.{
  PageAllocator, new_pages, kernel_pages, new_pages-IsValid, kernel_pages-PageLaws,
}
use emerald.Heap.History.{Run, start, allocated, Run-IsHeap, Run-partition}

abbrev blocks : List HeapFreeBlock
blocks =
    record { addr = 0x1000; size = 64 }
    ∷ record { addr = 0x1100; size = 128 }
    ∷ record { addr = 0x1200; size = 96 }
    ∷ []

free_block_between :
    free_block 0x2000 0x1040 192 blocks
    ≡ ok (record { addr = 0x1000; size = 384 } ∷ record { addr = 0x1200; size = 96 } ∷ [])
unfolding free_block
free_block_between = refl

free_block_twice : free_block 0x2000 0x1100 128 blocks ≡ panic
unfolding free_block
free_block_twice = refl

free_block-place_example :
    ((0x1040 + 192 ≤ 0x2000)
      × IsApart 0x1040 192 blocks
      × (free_block 0x2000 0x1040 192 blocks ≡ ok (place 0x1040 192 blocks)))
    ⊎ ((¬ ((0x1040 + 192 ≤ 0x2000) × IsApart 0x1040 192 blocks))
        × (free_block 0x2000 0x1040 192 blocks ≡ panic))
free_block-place_example = free_block-place 0x2000 0x1040 192 0x1000 blocks (omega arith) (
  omega arith,
  omega arith,
  omega arith,
  (omega arith, omega arith, omega arith, (omega arith, omega arith, omega arith, tt)),
)

best_fit-IsLeast_example :
    ((best_fit 70 none blocks ≡ none) × NoneFits 70 blocks)
    ⊎ ((b : HeapFreeBlock) × (best_fit 70 none blocks ≡ some b)
        × Has b blocks
        × (70 ≤ b.size)
        × IsLeast 70 b.size blocks)
best_fit-IsLeast_example = best_fit-IsLeast 70 blocks

abbrev no_infos : ℕ → AllocatedHeapBlockInfo
no_infos a = record { magic = 0; size = 0; pre_padding = 0 }

abbrev empty_heap : HeapAllocator PageAllocator
empty_heap = new new_pages no_infos

empty_heap-IsHeap : IsHeap kernel_pages-PageLaws empty_heap []
empty_heap-IsHeap = new-IsHeap kernel_pages-PageLaws new_pages no_infos new_pages-IsValid

get_free_block-IsFound_example :
    Post (IsFound kernel_pages-PageLaws 600 []) (get_free_block kernel_pages 2 empty_heap 600)
get_free_block-IsFound_example =
    get_free_block-IsFound kernel_pages-PageLaws empty_heap [] 600 (omega arith) (omega arith)
      empty_heap-IsHeap

abbrev wide : Layout
wide = record { size = 512; align = 64 }

abbrev narrow : Layout
narrow = record { size = 100; align = 8 }

alloc-IsAllocated_example :
    Post (IsAllocated kernel_pages-PageLaws wide []) (alloc kernel_pages empty_heap wide)
alloc-IsAllocated_example =
    alloc-IsAllocated kernel_pages-PageLaws empty_heap [] wide empty_heap-IsHeap (6, refl)

-- The heap after the first allocation: 64 bytes hold the header, then come the 512 bytes.
abbrev wide_block : Allocation
wide_block = record { base = kernel_heap_base; taken = 576; offset = 64; layout = wide }

abbrev heap : HeapAllocator PageAllocator
heap = record {
  heap_start = kernel_heap_base;
  total_heap_size = 4096;
  free_list = record { addr = kernel_heap_base + 576; size = 3520 } ∷ [];
  free_size = 3520;
  used_size = 576;
  page_allocator = record { heap_start = kernel_heap_base; mapped_pages = 1 };
  infos = λ a.
      if a == kernel_heap_base + 64 - 32
      then record { magic = heap_magic; size = 576; pre_padding = 64 }
      else no_infos a;
}

alloc-wide : alloc kernel_pages empty_heap wide ≡ ok (kernel_heap_base + 64, heap)
unfolding alloc new new_pages kernel_pages
alloc-wide = refl

heap-Run : Run kernel_pages kernel_pages-PageLaws heap (wide_block ∷ [])
heap-Run =
    allocated empty_heap heap [] wide_block (start new_pages no_infos new_pages-IsValid) (6, refl)
      alloc-wide refl

Run-partition_example :
    ((a : ℕ)
      → count a heap.free_list + count a (taken_blocks (wide_block ∷ []))
        ≡ inside a heap.heap_start heap.total_heap_size)
    × AllHeld heap.infos (wide_block ∷ [])
    × (stats heap ≡ record {
      allocated = total (taken_blocks (wide_block ∷ []));
      free_size = total heap.free_list;
      heap_size = total heap.free_list + total (taken_blocks (wide_block ∷ []));
    })
Run-partition_example = Run-partition kernel_pages-PageLaws heap (wide_block ∷ []) heap-Run

heap-IsHeap : IsHeap kernel_pages-PageLaws heap (wide_block ∷ [])
heap-IsHeap = Run-IsHeap kernel_pages-PageLaws heap (wide_block ∷ []) heap-Run

narrow_layout : whole_layout narrow ≡ ok (32, 144)
unfolding whole_layout
narrow_layout = refl

alloc-fits_example :
    (r : ℕ × HeapAllocator PageAllocator) × (alloc kernel_pages heap narrow ≡ ok r)
    × IsAllocated kernel_pages-PageLaws narrow (wide_block ∷ []) r
alloc-fits_example =
    alloc-fits kernel_pages-PageLaws heap (wide_block ∷ []) narrow 32 144 3520 heap-IsHeap
      (omega arith) (3, refl) (omega arith) narrow_layout (omega arith) (inl (omega arith))

dealloc-IsHeap_example :
    (h' : HeapAllocator PageAllocator) × (dealloc heap (kernel_heap_base + 64) wide ≡ ok h')
    × IsHeap kernel_pages-PageLaws h' []
dealloc-IsHeap_example =
    dealloc-IsHeap kernel_pages-PageLaws heap (wide_block ∷ []) [] wide_block heap-IsHeap
      (inl (refl, refl))

-- A block that is large enough for the padded layout, and not for the header that its address asks
-- for in front of the alignment.
abbrev short_layout : Layout
short_layout = record { size = 3328; align = 128 }

abbrev short_heap : HeapAllocator PageAllocator
short_heap = record heap { free_list = record { addr = kernel_heap_base + 624; size = 3456 } ∷ [] }

short_layout-fits : whole_layout short_layout ≡ ok (128, 3456)
unfolding whole_layout
short_layout-fits = refl

alloc-short : alloc kernel_pages short_heap short_layout ≡ panic
unfolding alloc kernel_pages
alloc-short = refl
