-- ===== src/Heap/Scan.antt =====
-- The scan of the free list in `free_block` of libraries/increasing_heap_allocator: what its loop
-- notes of each block.
use emerald.Prelude.{
  ℕ, suc, ◌+◌, ◌≤◌, ◌<◌, ◌≡◌, inl, inr, refl, ◌∙◌, true, false, Option, none, some, List, [], ◌∷◌,
  arith, leb, ltb, ◌==◌, if◌then◌else◌, Bool-cases, ok, bind-ok, ==_of_ne,
}
use emerald.Heap.{HeapFreeBlock, block_end, Around, is_closer, look, look_all}
use emerald.Heap.Place.{IsFree}

-- The block at the front of a list, where it begins at `end`.
unfoldable pub head_at : ℕ → Option HeapFreeBlock → List HeapFreeBlock → Option HeapFreeBlock
head_at end o [] = o
head_at end o (x ∷ xs) = if end == x.addr then some x else o

-- A block that does not begin before the end: only its start is compared with the end.
look-behind :
    (start end : ℕ) (a : Around) (x : HeapFreeBlock)
    → start < end
    → end ≤ x.addr
    → look start end a x
      ≡ ok (record {
        prev = a.prev;
        next = if end == x.addr then some x else a.next;
        closest_prev = a.closest_prev;
      })
unfolding look
look-behind start end a x lt le =
    rw
      (
        ==_of_ne x.addr start (λ e. omega arith),
        le→leb end x.addr le,
        ==_of_ne (x.addr + x.size) start (λ e. omega arith),
        le→ltb_false start x.addr (omega arith),
      )
      refl
  where
    le→leb : (m n : ℕ) → m ≤ n → leb m n ≡ true
    le→leb m n h = ground arith

    le→ltb_false : (m n : ℕ) → m ≤ n → ltb n m ≡ false
    le→ltb_false m n h = ground arith

-- A block that ends by the start, and lies behind the closest one so far.
pub look-before :
    (start end : ℕ) (c : Option HeapFreeBlock) (x : HeapFreeBlock)
    → start < end
    → 0 < x.size
    → x.addr + x.size ≤ start
    → is_closer x c ≡ true
    → look start end (record { prev = none; next = none; closest_prev = c }) x
      ≡ ok (record {
        prev = if block_end x == start then some x else none;
        next = none;
        closest_prev = some x;
      })
unfolding look
look-before start end c x lt pos le closer = elim (Bool-cases (x.addr + x.size == start)) [
  | inl t ↦ rw (==_of_ne x.addr start (λ e. omega arith), not_leb, is_leb, is_ltb, closer, t) refl
  | inr f ↦
      rw
        (
          ==_of_ne x.addr start (λ e. omega arith),
          not_leb,
          is_leb,
          is_ltb,
          closer,
          f,
          ==_of_ne end x.addr (λ e. omega arith),
        )
        refl
]
  where
    not_leb : leb end x.addr ≡ false
    not_leb = ground arith

    is_leb : leb (x.addr + x.size) start ≡ true
    is_leb = ground arith

    is_ltb : ltb x.addr start ≡ true
    is_ltb = ground arith

-- Blocks that begin behind the end leave the scan as it is.
look_all-past :
    (bs : List HeapFreeBlock) (start end lo hi : ℕ) (a : Around)
    → start < end
    → end < lo
    → IsFree lo hi bs
    → look_all start end a bs ≡ ok a
unfolding look_all
look_all-past [] start end lo hi a lt past h = refl
look_all-past (x ∷ xs) start end lo hi a lt past h =
    bind-ok (look start end a x) a _ (
      look-behind start end a x lt (omega arith) ∙ rw (==_of_ne end x.addr (λ e. omega arith)) refl)
    ∙ look_all-past xs start end (suc (x.addr + x.size)) hi a lt (omega arith) h.3

-- Of the blocks that do not begin before the end, the scan notes the one that begins there.
pub look_all-next :
    (bs : List HeapFreeBlock) (start end hi : ℕ) (p c : Option HeapFreeBlock)
    → start < end
    → IsFree end hi bs
    → look_all start end (record { prev = p; next = none; closest_prev = c }) bs
      ≡ ok (record { prev = p; next = head_at end none bs; closest_prev = c })
unfolding look_all head_at
look_all-next [] start end hi p c lt h = refl
look_all-next (x ∷ xs) start end hi p c lt h =
    bind-ok (look start end (record { prev = p; next = none; closest_prev = c }) x)
      (record { prev = p; next = head_at end none (x ∷ xs); closest_prev = c }) _
      (look-behind start end (record { prev = p; next = none; closest_prev = c }) x lt h.0)
    ∙ look_all-past xs start end (suc (x.addr + x.size)) hi
        (record { prev = p; next = head_at end none (x ∷ xs); closest_prev = c }) lt (omega arith)
        h.3
