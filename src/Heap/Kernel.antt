-- ===== src/Heap/Kernel.antt =====
-- kernel/src/memory_management/kernel_heap_allocator.rs: the pages of the kernel's heap. The call
-- that maps them is the virtual memory mapper's, which panics or succeeds.
use emerald.Prelude.{
  ℕ, ◌+◌, ◌*◌, ◌≤◌, ◌≡◌, refl, inl, inr, Option, none, some, arith, Outcome, ok, ◌>>◌, ensure, ltb,
  if◌then◌else◌, Post, Post-bind, ensure_any, Bool-cases,
}
use emerald.Memory.Layout.{kernel_heap_base, kernel_heap_size, page_4k}
use emerald.Heap.{PageAllocatorProvider, page_size}
use emerald.Heap.Invariant.{PageLaws, Granted}

pub record PageAllocator : Type 0 where
  pub heap_start : ℕ
  pub mapped_pages : ℕ

unfoldable pub new_pages : PageAllocator
new_pages = record { heap_start = kernel_heap_base; mapped_pages = 0 }

unfoldable pub allocate_kernel_pages : PageAllocator → ℕ → Outcome (Option (ℕ × PageAllocator))
allocate_kernel_pages p pages = do
  ensure (ltb 0 pages)
  let last_heap_base = p.heap_start + p.mapped_pages * page_4k
  (if ltb kernel_heap_size ((p.mapped_pages + pages) * page_4k)
      then ok none
      else ok (some (last_heap_base, record p { mapped_pages = p.mapped_pages + pages })))

unfoldable pub kernel_pages : PageAllocatorProvider PageAllocator
unfolding allocate_kernel_pages
kernel_pages = record { allocate_pages = allocate_kernel_pages }

unfoldable pub IsKernelPages : PageAllocator → Type 0
IsKernelPages p = (p.heap_start ≡ kernel_heap_base) × (p.mapped_pages * page_4k ≤ kernel_heap_size)

-- The kernel's pages follow each other from the base of its heap, and stay in the range that the
-- memory layout gives it.
pub kernel_pages-PageLaws : PageLaws kernel_pages
unfolding kernel_pages IsKernelPages
kernel_pages-PageLaws = record {
  IsValid = IsKernelPages;
  heap_end = λ p. p.heap_start + p.mapped_pages * page_4k;
  heap_end-whole = λ p v. (omega (arith, v.0), omega (arith, v.0, v.1));
  allocate_pages-Post = λ p pages v pos. granted p pages v;
}
  where
    granted :
        (p : PageAllocator) (pages : ℕ)
        → IsKernelPages p
        → Post
            (Granted IsKernelPages
              (λ q. q.heap_start + q.mapped_pages * page_4k)
              (p.heap_start + p.mapped_pages * page_4k)
              (pages * page_size))
            (allocate_kernel_pages p pages)
    granted p pages v =
        Post-bind (λ u. Unit) _ (ensure (ltb 0 pages)) _ (ensure_any (ltb 0 pages))
          (λ u k. elim (Bool-cases (ltb kernel_heap_size ((p.mapped_pages + pages) * page_4k))) [
            | inl e ↦ rw (Post, e) tt
            | inr e ↦ rw (Post, e) (refl, omega arith, (v.0, ground (arith, e)))
          ])

pub new_pages-IsValid : kernel_pages-PageLaws.IsValid new_pages
unfolding kernel_pages-PageLaws new_pages IsKernelPages
new_pages-IsValid = (refl, omega arith)
