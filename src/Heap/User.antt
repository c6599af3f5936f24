-- ===== src/Heap/User.antt =====
-- libraries/emerald_std/src/alloc.rs: the pages of the heap of a user program, which come from the
-- `inc_heap` system call of the kernel.
use emerald.Prelude.{
  ℕ, ◌+◌, ◌*◌, ◌%◌, ◌≤◌, ◌≡◌, ◌∙◌, sym, ◌>>=◌, ==_iff, true, Option, none, some, arith, Outcome, ok,
  ◌>>◌, ensure, ltb, ◌==◌, Post, Post-bind, ensure-Post, ensure_any,
}
use emerald.Prelude.Words.{u64_mod}
use emerald.Memory.Layout.{page_4k}
use emerald.Heap.{PageAllocatorProvider, page_size}
use emerald.Heap.Invariant.{PageLaws, Granted}
use emerald.Scheduler.UserHeap.{UserHeap, IsUserHeap, up, add_to_heap, Grows, add_to_heap-Grows}

-- The program's own record, and the heap that the kernel keeps for the process.
pub record UserPageAllocator : Type 0 where
  pub heap_start : ℕ
  pub mapped_pages : ℕ
  pub process : UserHeap

unfoldable pub inc_dec_heap : UserPageAllocator → ℕ → Outcome (Option ℕ × UserHeap)
unfolding add_to_heap
inc_dec_heap p increment = add_to_heap (up increment) p.process

unfoldable pub allocate_user_pages :
    UserPageAllocator → ℕ → Outcome (Option (ℕ × UserPageAllocator))
unfolding inc_dec_heap
allocate_user_pages p pages = do
  ensure (ltb 0 pages)
  let last_heap_base = p.heap_start + p.mapped_pages * page_4k
  (new_addr, process) ← inc_dec_heap p (pages * page_4k)
  elim new_addr [
    | none ↦ ok none
    | some addr ↦
        (ensure (addr == last_heap_base)
          >> ok
              (some (addr, record p { mapped_pages = p.mapped_pages + pages; process = process })))
  ]

unfoldable pub user_pages : PageAllocatorProvider UserPageAllocator
unfolding allocate_user_pages
user_pages = record { allocate_pages = allocate_user_pages }

-- What the two sides know of the heap agrees, it begins at a page, and its bound is below the end of
-- the address space.
unfoldable pub IsUserPages : UserPageAllocator → Type 0
IsUserPages p =
    IsUserHeap p.process
    × (p.heap_start ≡ p.process.heap_start)
    × (p.mapped_pages * page_4k ≡ p.process.heap_size)
    × (p.heap_start % page_4k ≡ 0)
    × (p.heap_start + p.process.heap_max + page_4k ≤ u64_mod)

-- The pages of a program's heap follow each other.
pub user_pages-PageLaws : PageLaws user_pages
unfolding user_pages IsUserPages allocate_user_pages
user_pages-PageLaws = record {
  IsValid = IsUserPages;
  heap_end = λ p. p.heap_start + p.mapped_pages * page_4k;
  heap_end-whole = λ p v. (omega (arith, v.3), omega (arith, v.0.0, v.1, v.2, v.4));
  allocate_pages-Post = λ p pages v pos. granted p pages v;
}
  where
    heap_end : UserPageAllocator → ℕ
    heap_end p = p.heap_start + p.mapped_pages * page_4k

    answered :
        (p : UserPageAllocator) (pages : ℕ)
        → IsUserPages p
        → (r : Option ℕ × UserHeap) → Grows (up (pages * page_4k)) p.process r
        → Post
            (Granted IsUserPages heap_end (heap_end p) (pages * page_size))
            (elim r.0 as (λ o. Outcome (Option (ℕ × UserPageAllocator))) [
              | none ↦ ok none
              | some addr ↦
                  (ensure (addr == p.heap_start + p.mapped_pages * page_4k)
                    >> ok (
                        some (
                          addr,
                          record p { mapped_pages = p.mapped_pages + pages; process = r.1 },
                        )))
            ])
    answered p pages v (none, process) g = tt
    answered p pages v (some addr, process) g =
        Post-bind (λ u. addr == p.heap_start + p.mapped_pages * page_4k ≡ true)
          (Granted IsUserPages heap_end (heap_end p) (pages * page_size))
          (ensure (addr == p.heap_start + p.mapped_pages * page_4k))
          (λ u.
            ok (some (addr, record p { mapped_pages = p.mapped_pages + pages; process = process })))
          (ensure-Post _)
          (λ u e. (
            (==_iff addr (p.heap_start + p.mapped_pages * page_4k)).0 e,
            omega arith,
            (g.2, v.1 ∙ sym g.3, omega (arith, v.2, g.4), v.3, omega (arith, v.4, g.5)),
          ))

    granted :
        (p : UserPageAllocator) (pages : ℕ)
        → IsUserPages p
        → Post
            (Granted IsUserPages heap_end (heap_end p) (pages * page_size))
            (allocate_user_pages p pages)
    granted p pages v =
        Post-bind (λ u. Unit) _ (ensure (ltb 0 pages)) _ (ensure_any (ltb 0 pages))
          (λ u k.
            Post-bind (Grows (up (pages * page_4k)) p.process) _ (inc_dec_heap p (pages * page_4k))
              _ (add_to_heap-Grows (up (pages * page_4k)) p.process v.0) (answered p pages v))
