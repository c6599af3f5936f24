-- ===== src/Heap/Grow.antt =====
-- `allocate_more_pages` and `get_free_block` of libraries/increasing_heap_allocator.
use emerald.Prelude.{
  ℕ, suc, ◌+◌, ◌*◌, ◌≤◌, ◌<◌, ◌≡◌, ◌⊎◌, inl, inr, refl, sym, ap, ◌∙◌, true, Option, none, some,
  List, [], ◌∷◌, arith, Outcome, ok, panic, Post, Post-bind, bind-ok, ensure, ensure-Post, ltb,
  ltb→lt, ◌==◌, if◌then◌else◌, Bool-cases, ==_iff,
}
use mathlib.Core.Path.{subst}
use emerald.Heap.{
  HeapFreeBlock, block_end, HeapAllocator, PageAllocatorProvider, page_size, add_pages,
  allocate_more_pages, is_null, free_block,
}
use emerald.Heap.Place.{IsFree, IsApart, IsFree-higher, join, place, place-IsFree}
use emerald.Heap.Count.{count, inside, inside-split, count-place, total-place, place-IsWhole}
use emerald.Heap.Fit.{NoneFits}
use emerald.Heap.Release.{free_block-ok}
use emerald.Heap.Invariant.{PageLaws, Allocation, taken_blocks, IsHeap, Granted}

IsApart-below : (bs : List HeapFreeBlock) (lo hi size : ℕ) → IsFree lo hi bs → IsApart hi size bs
IsApart-below [] lo hi size h = tt
IsApart-below (b ∷ bs) lo hi size h =
    (inr h.2, IsApart-below bs (suc (b.addr + b.size)) hi size h.3)

-- A block with at least `n` bytes.
abbrev pub HasFit : ℕ → List HeapFreeBlock → Type 0
HasFit n [] = ⊥
HasFit n (b ∷ bs) = (n ≤ b.size) ⊎ HasFit n bs

join-HasFit :
    (n : ℕ) (b : HeapFreeBlock) (bs : List HeapFreeBlock) → n ≤ b.size → HasFit n (join b bs)
unfolding join
join-HasFit n b [] le = inl le
join-HasFit n b (x ∷ xs) le = elim (Bool-cases (block_end b == x.addr)) [
  | inl t ↦ rw t (inl (omega arith))
  | inr f ↦ rw f (inl le)
]

place-HasFit : (start size : ℕ) (bs : List HeapFreeBlock) → HasFit size (place start size bs)
unfolding place
place-HasFit start size [] = inl (omega arith)
place-HasFit start size (x ∷ xs) = elim (Bool-cases (ltb start x.addr)) [
  | inl e ↦ rw e (join-HasFit size (record { addr = start; size = size }) (x ∷ xs) (omega arith))
  | inr e ↦ elim (Bool-cases (block_end x == start)) [
    | inl t ↦ rw (e, t) (join-HasFit size (record x { size = x.size + size }) xs (omega arith))
    | inr f ↦ rw (e, f) (inr (place-HasFit start size xs))
  ]
]

pub NoneFits-HasFit :
    (bs : List HeapFreeBlock) (size n : ℕ) → size ≤ n → NoneFits size bs → HasFit n bs → ⊥
NoneFits-HasFit [] size n le none_fits fit = fit
NoneFits-HasFit (b ∷ bs) size n le none_fits (inl h) = omega (arith, none_fits.0)
NoneFits-HasFit (b ∷ bs) size n le none_fits (inr h) = NoneFits-HasFit bs size n le none_fits.1 h

-- A heap with no bytes has no free block.
no_block : (bs : List HeapFreeBlock) (lo : ℕ) → IsFree lo lo bs → bs ≡ []
no_block [] lo h = refl
no_block (b ∷ bs) lo h = absurd (omega (arith, h.0, h.1, h.2))

grown_count :
    (a lo size more start c c' l : ℕ)
    → lo + size ≡ start
    → c' ≡ inside a start more + c
    → c + l ≡ inside a lo size
    → c' + l ≡ inside a lo (size + more)
grown_count a lo size more start c c' l e h k =
    rw inside-split (omega (arith, h, k, ap (λ x. inside a x more) e))

module _ {P : Type 0} {provider : PageAllocatorProvider P} (laws : PageLaws provider) where
  -- The heap once it begins where its pages do, and ends where the new ones begin.
  abbrev IsReady : ℕ → ℕ → HeapAllocator P → List Allocation → Type 0
  IsReady lo start h live =
      (lo + h.total_heap_size ≡ start)
      × IsFree lo start h.free_list
      × ((a : ℕ)
          → count a h.free_list + count a (taken_blocks live) ≡ inside a lo h.total_heap_size)

  ready :
      (h : HeapAllocator P) (live : List Allocation) (start : ℕ)
      → start ≡ laws.heap_end h.page_allocator
      → IsHeap laws h live
      → IsReady (if h.total_heap_size == 0 then start else h.heap_start) start h live
  ready h live start e i = elim (Bool-cases (h.total_heap_size == 0)) [
    | inl empty ↦ rw empty (
      ground (arith, empty),
      nothing_free ((==_iff h.total_heap_size 0).0 empty),
      λ a. ground (arith, empty, i.partition a),
    )
    | inr full ↦ rw full (
      ground (arith, full, i.contiguous (ground (arith, full)), e),
      subst (λ x. IsFree h.heap_start x h.free_list)
          (ground (arith, full, i.contiguous (ground (arith, full)), e)) i.ordered,
      i.partition,
    )
  ]
    where
      nothing_free : h.total_heap_size ≡ 0 → IsFree start start h.free_list
      nothing_free z =
          subst (IsFree start start)
            (sym (
              no_block h.free_list h.heap_start
                (subst (λ x. IsFree h.heap_start x h.free_list) (omega (arith, z)) i.ordered)))
            tt

  free_pages :
      (bs : List HeapFreeBlock) (lo start size heap_end : ℕ)
      → 0 < size
      → IsFree lo start bs
      → start + size ≡ heap_end
      → (if is_null bs
          then ok (record { addr = start; size = size } ∷ [])
          else free_block heap_end start size bs)
        ≡ ok (place start size bs)
  unfolding place
  free_pages [] lo start size heap_end pos f e = refl
  free_pages (x ∷ xs) lo start size heap_end pos f e =
      free_block-ok heap_end start size lo (x ∷ xs) pos
        (IsFree-higher (x ∷ xs) lo start heap_end (omega arith) f) (omega arith)
        (IsApart-below (x ∷ xs) lo start size f)

  -- The pages that follow the heap make it longer, and one of its free blocks holds them all.
  pub add_pages-IsHeap :
      (h : HeapAllocator P) (live : List Allocation) (pages start : ℕ) (p : P)
      → 0 < pages
      → start ≡ laws.heap_end h.page_allocator
      → laws.heap_end p ≡ start + pages * page_size
      → laws.IsValid p
      → IsHeap laws h live
      → (h' : HeapAllocator P) × (add_pages h pages start p ≡ ok h')
        × IsHeap laws h' live
        × HasFit (pages * page_size) h'.free_list
        × (0 < h'.total_heap_size)
  unfolding add_pages
  add_pages-IsHeap h live pages start p pos e e' v i = (
    record h {
      heap_start = lo;
      total_heap_size = h.total_heap_size + size;
      free_list = place start size h.free_list;
      free_size = h.free_size + size;
      page_allocator = p;
    },
    bind-ok _ (place start size h.free_list) _ (
        free_pages h.free_list lo start size (lo + (h.total_heap_size + size)) (omega arith) r.1
          (omega (arith, r.0))),
    record {
      ordered =
          place-IsFree h.free_list start size lo (lo + (h.total_heap_size + size)) (omega arith)
            (omega (arith, r.0)) (omega (arith, r.0))
            (IsFree-higher h.free_list lo start (lo + (h.total_heap_size + size))
              (omega (arith, r.0)) r.1)
            (IsApart-below h.free_list lo start size r.1);
      whole =
          place-IsWhole start size h.free_list
            (omega (arith, (laws.heap_end-whole h.page_allocator i.valid).0)) (omega arith) i.whole;
      partition = λ a.
          grown_count a lo h.total_heap_size size start (count a h.free_list) _
            (count a (taken_blocks live)) r.0 (count-place a start size h.free_list) (r.2 a);
      free_total = total-place start size h.free_list ∙ omega (arith, i.free_total);
      used_total = i.used_total;
      sizes = omega (arith, i.sizes);
      held = i.held;
      valid = v;
      contiguous = λ lt. omega (arith, r.0);
    },
    place-HasFit start size h.free_list,
    omega arith,
  )
    where
      size : ℕ
      size = pages * page_size

      lo : ℕ
      lo = if h.total_heap_size == 0 then start else h.heap_start

      r : IsReady lo start h live
      r = ready h live start e i

  pub allocate_more_pages-IsHeap :
      (h : HeapAllocator P) (live : List Allocation) (pages : ℕ)
      → IsHeap laws h live
      → Post
          (λ h'.
            (IsHeap laws h' live
              × HasFit (pages * page_size) h'.free_list
              × (0 < h'.total_heap_size)))
          (allocate_more_pages provider h pages)
  unfolding allocate_more_pages
  allocate_more_pages-IsHeap h live pages i =
      Post-bind (λ u. ltb 0 pages ≡ true) _ (ensure (ltb 0 pages)) _ (ensure-Post (ltb 0 pages))
        (λ u e.
          Post-bind _ _ (provider.allocate_pages h.page_allocator pages) _
            (laws.allocate_pages-Post h.page_allocator pages i.valid (ltb→lt 0 pages e))
            (λ r k. granted r (ltb→lt 0 pages e) k))
    where
      Grown : HeapAllocator P → Type 0
      Grown h' =
          IsHeap laws h' live × HasFit (pages * page_size) h'.free_list × (0 < h'.total_heap_size)

      granted :
          (r : Option (ℕ × P))
          → 0 < pages
          → Granted laws.IsValid laws.heap_end
              (laws.heap_end h.page_allocator)
              (pages * page_size)
              r
          → Post Grown (elim r as (λ x. Outcome (HeapAllocator P)) [
            | none ↦ panic
            | some (start, p) ↦ add_pages h pages start p
          ])
      granted none pos k = tt
      granted (some (start, p)) pos (e, e', v) =
          added (add_pages-IsHeap h live pages start p pos e (omega arith) v i)
        where
          added :
              ((h' : HeapAllocator P) × (add_pages h pages start p ≡ ok h')
                × IsHeap laws h' live
                × HasFit (pages * page_size) h'.free_list
                × (0 < h'.total_heap_size))
              → Post Grown (add_pages h pages start p)
          added (h', k, i', fit, pos') = rw k (i', fit, pos')
