-- ===== src/Heap/Calls.antt =====
-- The calls of the heap of libraries/increasing_heap_allocator: `new`, `alloc` and `dealloc`.
use emerald.Prelude.{
  ℕ, ◌+◌, ◌-◌, ◌%◌, ◌≤◌, ◌<◌, ◌≡◌, refl, ◌∙◌, List, [], arith, Outcome, ok, Post, Post-bind,
  bind-ok, dec_lt, panic, undefined, ◌>>=◌,
}
use mathlib.Core.Path.{subst}
use emerald.Prelude.Words.{u64_mod}
use emerald.Heap.{
  HeapFreeBlock, AllocatedHeapBlockInfo, HeapAllocator, PageAllocatorProvider, Layout, take_block,
  offset_in_block, whole_layout, get_free_block, new, alloc,
}
use emerald.Heap.Fit.{Has}
use emerald.Heap.Offset.{IsAlignment, offset_sixteen}
use emerald.Heap.Sizes.{IsWholeLayout, whole_layout-Post}
use emerald.Heap.Grow.{HasFit}
use emerald.Heap.Search.{IsFound, get_free_block-fits, get_free_block-IsFound}
use emerald.Heap.Alloc.{free_block_lem, IsAllocated, take_block-ok, take_block-panic}
use emerald.Heap.Invariant.{PageLaws, Allocation, IsHeap}

module _ {P : Type 0} {provider : PageAllocatorProvider P} (laws : PageLaws provider) where
  pub new-IsHeap :
      (p : P) (infos : ℕ → AllocatedHeapBlockInfo) → laws.IsValid p → IsHeap laws (new p infos) []
  unfolding new
  new-IsHeap p infos v = record {
    ordered = tt;
    whole = tt;
    partition = λ a. ground arith;
    free_total = refl;
    used_total = refl;
    sizes = refl;
    held = tt;
    valid = v;
    contiguous = λ lt. absurd (omega arith);
  }

  -- On a heap that keeps its invariant, and for any alignment, `alloc` either panics or returns
  -- a pointer that is aligned, in a block with room for all that was asked for, which was free and
  -- is shared with no other allocation; the invariant holds again, with the new allocation.
  pub alloc-IsAllocated :
      (h : HeapAllocator P) (live : List Allocation) (layout : Layout)
      → IsHeap laws h live
      → IsAlignment layout.align
      → Post (IsAllocated laws layout live) (alloc provider h layout)
  unfolding alloc
  alloc-IsAllocated h live layout i al = go _ refl (whole_layout-Post layout al)
    where
      taken :
          (offset size : ℕ)
          → whole_layout layout ≡ ok (offset, size)
          → IsWholeLayout layout offset size
          → (r : HeapFreeBlock × HeapAllocator P) → IsFound laws size live r
          → Post (IsAllocated laws layout live) (take_block r.1 r.0 layout.align offset size)
      taken offset size e w (b, h') (i', has, room, pos) =
          elim (dec_lt b.size (size + (offset_in_block b.addr layout.align - offset))) [
            | yes short ↦
                rw
                  (take_block-panic laws h' live b layout offset size i' pos has al
                    (omega (arith, w.3)) short)
                  tt
            | no enough ↦
                got
                  (take_block-ok laws h' live b layout offset size i' pos has al e w (omega arith))
          ]
        where
          got :
              ((r : ℕ × HeapAllocator P) × (take_block h' b layout.align offset size ≡ ok r)
                × IsAllocated laws layout live r)
              → Post (IsAllocated laws layout live) (take_block h' b layout.align offset size)
          got (r, k, a) = rw k a

      go :
          (o : Outcome (ℕ × ℕ))
          → whole_layout layout ≡ o
          → Post (λ r. IsWholeLayout layout r.0 r.1) o
          → Post (IsAllocated laws layout live) (
              o >>= λ (r : ℕ × ℕ).
              get_free_block provider 2 h r.1 >>= λ (s : HeapFreeBlock × HeapAllocator P).
              take_block s.1 s.0 layout.align r.0 r.1)
      go (ok (offset, size)) e w =
          Post-bind (IsFound laws size live) _ (get_free_block provider 2 h size) _
            (get_free_block-IsFound laws h live size (omega (arith, w.0, w.1)) (omega (arith, w.6))
              i)
            (taken offset size e w)
      go panic e w = tt
      go undefined e w = w

  -- On a heap that has pages and keeps its invariant, for an alignment up to 16, and where a free
  -- block has room for the layout with its header and padding, `alloc` returns: an aligned pointer
  -- in a block that was free, and the invariant holds with the new allocation.
  pub alloc-fits :
      (h : HeapAllocator P) (live : List Allocation) (layout : Layout) (offset size fit : ℕ)
      → IsHeap laws h live
      → 0 < h.total_heap_size
      → IsAlignment layout.align
      → layout.align ≤ 16
      → whole_layout layout ≡ ok (offset, size)
      → size ≤ fit
      → HasFit fit h.free_list
      → (r : ℕ × HeapAllocator P) × (alloc provider h layout ≡ ok r)
        × IsAllocated laws layout live r
  unfolding alloc
  alloc-fits h live layout offset size fit i pos al small e le has =
      go (get_free_block-fits laws h live size 1 fit i pos le has)
    where
      w : IsWholeLayout layout offset size
      w = subst (Post (λ r. IsWholeLayout layout r.0 r.1)) e (whole_layout-Post layout al)

      go :
          ((b : HeapFreeBlock) × (get_free_block provider 2 h size ≡ ok (b, h))
            × Has b h.free_list
            × (size ≤ b.size))
          → (r : ℕ × HeapAllocator P) × (alloc provider h layout ≡ ok r)
            × IsAllocated laws layout live r
      go (b, found, there, room) =
          taken (take_block-ok laws h live b layout offset size i pos there al e w enough)
        where
          lies : (b.addr + b.size ≤ u64_mod) × (b.addr % 16 ≡ 0)
          lies = free_block_lem laws h live b i pos there

          enough : size + (offset_in_block b.addr layout.align - offset) ≤ b.size
          enough = omega (
            arith,
            offset_sixteen b.addr layout.align lies.1 (omega (arith, lies.0, w.3)) al small,
            w.1,
          )

          taken :
              ((r : ℕ × HeapAllocator P) × (take_block h b layout.align offset size ≡ ok r)
                × IsAllocated laws layout live r)
              → (r : ℕ × HeapAllocator P) × (alloc provider h layout ≡ ok r)
                × IsAllocated laws layout live r
          taken (r, k, a) = (
            r,
            bind-ok (whole_layout layout) (offset, size) _ e
                ∙ bind-ok (get_free_block provider 2 h size) (b, h) _ found
                ∙ k,
            a,
          )
