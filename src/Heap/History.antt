-- ===== src/Heap/History.antt =====
-- The heap of libraries/increasing_heap_allocator over any sequence of calls.
use emerald.Prelude.{ℕ, ◌+◌, ◌-◌, ◌≡◌, refl, sym, ap, ◌∙◌, List, [], ◌∷◌, arith, ok, Post}
use mathlib.Core.Path.{subst}
use emerald.Heap.{
  AllocatedHeapBlockInfo, HeapAllocator, PageAllocatorProvider, new, stats, alloc, dealloc,
}
use emerald.Heap.Count.{count, total, inside}
use emerald.Heap.Offset.{IsAlignment}
use emerald.Heap.Invariant.{PageLaws, Allocation, taken_blocks, IsHeap, AllHeld, Picks, header_of}
use emerald.Heap.Alloc.{IsAllocated}
use emerald.Heap.Calls.{new-IsHeap, alloc-IsAllocated}
use emerald.Heap.Free.{dealloc-IsHeap}

-- The heaps that the calls lead to, with the allocations that are held: an allocation is known by
-- the pointer that `alloc` returned, its layout and the header in front of it, and is freed once.
pub data Run {P : Type 0} (provider : PageAllocatorProvider P) (laws : PageLaws provider)
    : HeapAllocator P → List Allocation → Type 0 where
  start :
      (p : P) (infos : ℕ → AllocatedHeapBlockInfo)
      → laws.IsValid p
      → Run provider laws (new p infos) []
  allocated :
      (h h' : HeapAllocator P) (live : List Allocation) (w : Allocation)
      → Run provider laws h live
      → IsAlignment w.layout.align
      → alloc provider h w.layout ≡ ok (w.base + w.offset, h')
      → h'.infos (w.base + w.offset - 32) ≡ header_of w
      → Run provider laws h' (w ∷ live)
  freed :
      (h h' : HeapAllocator P) (live rest : List Allocation) (w : Allocation)
      → Run provider laws h live
      → Picks w live rest
      → dealloc h (w.base + w.offset) w.layout ≡ ok h'
      → Run provider laws h' rest

same_allocation :
    (v w : Allocation)
    → v.base ≡ w.base
    → v.taken ≡ w.taken
    → v.offset ≡ w.offset
    → v.layout ≡ w.layout
    → v ≡ w
same_allocation v w eb et eo el = cc

module _ {P : Type 0} {provider : PageAllocatorProvider P} (laws : PageLaws provider) where
  known :
      (h : HeapAllocator P) (live : List Allocation) (w : Allocation)
      → h.infos (w.base + w.offset - 32) ≡ header_of w
      → IsAllocated laws w.layout live (w.base + w.offset, h)
      → IsHeap laws h (w ∷ live)
  known h live w header (v, at, same, i) =
      subst (λ u. IsHeap laws h (u ∷ live))
        (same_allocation v w (omega (arith, at, offset)) (ap (λ x. x.size) headers) offset same) i
    where
      headers : header_of v ≡ header_of w
      headers = sym i.held.0.0 ∙ ap (λ a. h.infos (a - 32)) at ∙ header

      offset : v.offset ≡ w.offset
      offset = ap (λ x. x.pre_padding) headers

  pub Run-IsHeap :
      (h : HeapAllocator P) (live : List Allocation) → Run provider laws h live → IsHeap laws h live
  Run-IsHeap h live (start p infos v) = new-IsHeap laws p infos v
  Run-IsHeap h live (allocated h₀ h' live₀ w r al e header) = known h' live₀ w header (
      subst (Post (IsAllocated laws w.layout live₀)) e
        (alloc-IsAllocated laws h₀ live₀ w.layout (Run-IsHeap h₀ live₀ r) al))
  Run-IsHeap h live (freed h₀ h' live₀ rest w r p e) =
      go (dealloc-IsHeap laws h₀ live₀ rest w (Run-IsHeap h₀ live₀ r) p)
    where
      go :
          ((h₁ : HeapAllocator P) × (dealloc h₀ (w.base + w.offset) w.layout ≡ ok h₁)
            × IsHeap laws h₁ rest)
          → IsHeap laws h' rest
      go (h₁, e₁, i) = subst (Post (λ x. IsHeap laws x rest)) (sym e₁ ∙ e) i

  -- Whatever calls have been made of a new heap, no byte belongs to two of the allocations that are
  -- held, or to one and to the free list, and none of them reaches out of the heap; each of them is
  -- aligned, has its header in front of it and room for all that was asked for; and `stats` gives
  -- the sizes that the allocations and the free blocks add up to.
  pub Run-partition :
      (h : HeapAllocator P) (live : List Allocation)
      → Run provider laws h live
      → ((a : ℕ)
          → count a h.free_list + count a (taken_blocks live)
            ≡ inside a h.heap_start h.total_heap_size)
        × AllHeld h.infos live
        × (stats h ≡ record {
          allocated = total (taken_blocks live);
          free_size = total h.free_list;
          heap_size = total h.free_list + total (taken_blocks live);
        })
  unfolding stats
  Run-partition h live r = (i.partition, i.held, rw (i.used_total, i.free_total, i.sizes) refl)
    where
      i : IsHeap laws h live
      i = Run-IsHeap h live r
