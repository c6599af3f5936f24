-- ===== src/Memory/PageAllocator/FreeList.antt =====
-- The free list of kernel/src/memory_management/physical_page_allocator.rs as a list of pages.
use emerald.Prelude.{
  ℕ, ◌+◌, ◌%◌, ◌≤◌, ◌<◌, ◌≡◌, ◌≢◌, ◌⊎◌, refl, true, false, Option, none, some, List, [], ◌∷◌, arith,
  length, All, ok, panic,
}
use emerald.Memory.Layout.{page_4k, is_aligned}
use emerald.Memory.PageAllocator.{Page, filled, free_page, write, Allocator, alloc, free}

-- From `head` the `next` fields lead through exactly these pages.
abbrev pub Chain : (ℕ → Page) → Option ℕ → List ℕ → Type 0
Chain mem head [] = head ≡ none
Chain mem head (p ∷ ps) =
    (head ≡ some p) × ((next : Option ℕ) × (mem p ≡ free_page next) × Chain mem next ps)

abbrev pub Fresh : ℕ → List ℕ → Type 0
Fresh page ps = All (λ p. p ≢ page) ps

abbrev pub Distinct : List ℕ → Type 0
Distinct [] = Unit
Distinct (p ∷ ps) = Fresh p ps × Distinct ps

-- A page that an allocator with these bounds may hand out.
pub record InBounds (start limit high : ℕ) (page : ℕ) : Type 0 where
  pub not_null : page ≢ 0
  pub aligned : page % page_4k ≡ 0
  pub above : start ≤ page
  pub below : page < limit
  pub low : (high ≡ 0) ⊎ (page < high)

abbrev pub IsPage : Allocator → ℕ → Type 0
IsPage s = InBounds s.start s.limit s.high_mem_start

-- The pages that are free, in the order in which `alloc` hands them out: none twice, and each
-- aligned and in the range of the allocator. Every page that was ever freed is either among them or
-- was handed out since.
pub record IsValid (s : Allocator) (pages : List ℕ) : Type 0 where
  pub chain : Chain s.mem s.head pages
  pub distinct : Distinct pages
  pub in_range : All (IsPage s) pages
  pub counted : s.free_count ≡ length pages + s.used_count

pub Chain-write :
    (mem : ℕ → Page) (page : ℕ) (content : Page) (head : Option ℕ) (ps : List ℕ)
    → Fresh page ps
    → Chain mem head ps
    → Chain (write mem page content) head ps
Chain-write mem page content head [] f c = c
Chain-write mem page content head (p ∷ ps) f c =
    (c.0, (c.1.0, ground (arith, f.0, c.1.1), Chain-write mem page content c.1.0 ps f.1 c.1.2))

-- A valid page that is not free becomes the first free page.
pub free-IsValid :
    (s : Allocator) (pages : List ℕ) (page : ℕ)
    → IsValid s pages
    → IsPage s page
    → Fresh page pages
    → (s' : Allocator) × (free s page ≡ ok (true, s')) × IsValid s' (page ∷ pages)
unfolding free is_aligned
free-IsValid s pages page v p f = (
  record s {
    head = some page;
    free_count = s.free_count + 1;
    mem = write s.mem page (free_page s.head);
  },
  ground (arith, p.low, p.not_null, p.aligned, p.above, p.below),
  record {
    chain = (
      refl,
      (s.head, ground arith, Chain-write s.mem page (free_page s.head) s.head pages f v.chain),
    );
    distinct = (f, v.distinct);
    in_range = (p, v.in_range);
    counted = omega (arith, v.counted);
  },
)

-- Any other address is refused, and nothing changes.
pub free_refused :
    (s : Allocator) (page : ℕ)
    → (page ≡ 0) ⊎ (page % page_4k ≢ 0) ⊎ (page < s.start) ⊎ (s.limit ≤ page)
    → free s page ≡ ok (false, s)
unfolding free is_aligned
free_refused s page h = ground (arith, h)

-- `alloc` hands out the first free page, which is then no longer free, and fills it with ones.
pub alloc-IsValid :
    (s : Allocator) (page : ℕ) (pages : List ℕ)
    → IsValid s (page ∷ pages)
    → (s' : Allocator) × (alloc s ≡ ok (page, s'))
      × IsValid s' pages
      × IsPage s page
      × Fresh page pages
      × (s'.mem page ≡ filled 1)
unfolding alloc
alloc-IsValid s page pages v =
    let (next, e, rest) = v.chain.1 in
    (
      record s { head = next; used_count = s.used_count + 1; mem = write s.mem page (filled 1) },
      ground (arith, v.chain.0, e),
      record {
        chain = Chain-write s.mem page (filled 1) next pages v.distinct.0 rest;
        distinct = v.distinct.1;
        in_range = v.in_range.1;
        counted = omega (arith, v.counted);
      },
      v.in_range.0,
      v.distinct.0,
      ground arith,
    )

-- With no free page `alloc` panics.
pub alloc_empty : (s : Allocator) → IsValid s [] → alloc s ≡ panic
unfolding alloc
alloc_empty s v = ground (arith, v.chain)
