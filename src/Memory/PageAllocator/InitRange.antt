-- ===== src/Memory/PageAllocator/InitRange.antt =====
-- `init_range` of kernel/src/memory_management/physical_page_allocator.rs.
use emerald.Prelude.{
  ℕ, zero, suc, ◌+◌, ◌-◌, ◌*◌, ◌/◌, ◌%◌, ◌≤◌, ◌<◌, ◌≡◌, ◌≢◌, inl, refl, Bool, true, List, [], ◌∷◌,
  arith, All, ok, lt→ltb,
}
use emerald.Prelude.Words.{u64_mod}
use emerald.Memory.Layout.{page_4k, align_up-page, align_down-page}
use emerald.Memory.PageAllocator.{Allocator, free, free_pages, init_range}
use emerald.Memory.PageAllocator.FreeList.{Fresh, IsValid, free-IsValid}

-- The pages from `page` on, `n` of them, on top of those of the list: the last one first.
abbrev pub stacked : ℕ → ℕ → List ℕ → List ℕ
stacked zero page pages = pages
stacked (suc n) page pages = stacked n (page + page_4k) (page ∷ pages)

Fresh-below : (page : ℕ) (ps : List ℕ) → All (λ p. p < page) ps → Fresh page ps
Fresh-below page [] h = tt
Fresh-below page (p ∷ ps) h = (omega arith, Fresh-below page ps h.1)

All-below : (a b : ℕ) (ps : List ℕ) → a ≤ b → All (λ p. p < a) ps → All (λ p. p < b) ps
All-below a b [] le h = tt
All-below a b (p ∷ ps) le h = (omega arith, All-below a b ps le h.1)

free-bounds :
    (s : Allocator) (page : ℕ) (done : Bool) (s' : Allocator)
    → free s page ≡ ok (done, s')
    → (s'.start ≡ s.start) × (s'.limit ≡ s.limit) × (s'.high_mem_start ≡ s.high_mem_start)
unfolding free
free-bounds s page done s' e = ground (arith, e)

free_pages-IsValid :
    (n : ℕ) (s : Allocator) (pages : List ℕ) (page : ℕ)
    → IsValid s pages
    → All (λ p. p < page) pages
    → page % page_4k ≡ 0
    → page ≢ 0
    → s.start ≤ page
    → page + n * page_4k ≤ s.limit
    → s.high_mem_start ≡ 0
    → (s' : Allocator) × (free_pages n s page ≡ ok s') × IsValid s' (stacked n page pages)
unfolding free_pages
free_pages-IsValid zero s pages page v low al nz st li hi = (s, refl, v)
free_pages-IsValid (suc n) s pages page v low al nz st li hi =
    let (s₁, e, v₁) =
      free-IsValid s pages page v
        (record { not_null = nz; aligned = al; above = st; below = omega arith; low = inl hi })
        (Fresh-below page pages low) in
    let (a, b, c) = free-bounds s page true s₁ e in
    let (s₂, e₂, v₂) =
      free_pages-IsValid n s₁ (page ∷ pages) (page + page_4k) v₁
        (omega arith, All-below page (page + page_4k) pages (omega arith) low) (omega arith)
        (omega arith) (omega (arith, a)) (omega (arith, b)) (omega (arith, c)) in
    (s₂, rw e e₂, v₂)

-- The first page that begins in a range, and the end of the last one that ends in it.
abbrev pub first_whole : ℕ → ℕ
first_whole first = (first + page_4k - 1) / page_4k * page_4k

abbrev pub whole_stop : ℕ → ℕ
whole_stop stop = stop / page_4k * page_4k

-- Over a range of any two addresses of 64 bits, the first not 0, that holds a whole page, from an
-- allocator without high memory, all of whose free pages lie below the first whole page and whose
-- bounds enclose the whole pages, `init_range` does not panic and makes each whole page of the range
-- free, and nothing else, in a valid state.
pub init_range-IsValid :
    (s : Allocator) (pages : List ℕ) (first stop : ℕ)
    → IsValid s pages
    → 0 < first
    → stop < u64_mod
    → first_whole first < whole_stop stop
    → All (λ p. p < first_whole first) pages
    → s.start ≤ first_whole first
    → whole_stop stop ≤ s.limit
    → s.high_mem_start ≡ 0
    → (s' : Allocator) × (init_range s first stop ≡ ok s')
      × IsValid s'
          (stacked (stop / page_4k - (first + page_4k - 1) / page_4k) (first_whole first) pages)
unfolding init_range
init_range-IsValid s pages first stop v pos top lt low st li hi =
    let n = stop / page_4k - (first + page_4k - 1) / page_4k in
    let (s', e, v') =
      free_pages-IsValid n s pages (first_whole first) v low (omega arith) (omega arith) st
        (omega arith) hi in
    let rounds : (whole_stop stop - first_whole first + page_4k - 1) / page_4k ≡ n = omega arith in
    (
      s',
      rw
          (
            align_up-page first (omega arith),
            align_down-page stop,
            lt→ltb (first_whole first) (whole_stop stop) lt,
            rounds,
          )
          e,
      v',
    )
