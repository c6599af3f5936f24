-- ===== src/Heap/Place.antt =====
-- What `free_block` of libraries/increasing_heap_allocator is meant to do to the free list: put the
-- block in its place by address and join it to the blocks that it touches.
use emerald.Prelude.{
  ℕ, suc, ◌+◌, ◌≤◌, ◌<◌, ◌⊎◌, inl, inr, List, [], ◌∷◌, arith, ltb, ◌==◌, if◌then◌else◌, Bool-cases,
}
use emerald.Heap.{HeapFreeBlock, block_end}

-- Put in front of a list whose first block may begin where this one ends.
unfoldable pub join : HeapFreeBlock → List HeapFreeBlock → List HeapFreeBlock
join b [] = b ∷ []
join b (x ∷ xs) =
    if block_end b == x.addr then (record b { size = b.size + x.size } ∷ xs) else (b ∷ x ∷ xs)

unfoldable pub place : ℕ → ℕ → List HeapFreeBlock → List HeapFreeBlock
unfolding join
place start size [] = record { addr = start; size = size } ∷ []
place start size (x ∷ xs) =
    let rest = place start size xs in
    if ltb start x.addr
    then join (record { addr = start; size = size }) (x ∷ xs)
    else (if block_end x == start then join (record x { size = x.size + size }) xs else (x ∷ rest))

-- The blocks lie between `lo` and `hi`, in order of their addresses, none is empty and no two
-- touch.
abbrev pub IsFree : ℕ → ℕ → List HeapFreeBlock → Type 0
IsFree lo hi [] = Unit
IsFree lo hi (b ∷ bs) =
    (lo ≤ b.addr) × (0 < b.size) × (b.addr + b.size ≤ hi) × IsFree (suc (b.addr + b.size)) hi bs

-- None of the blocks overlaps the range.
abbrev pub IsApart : ℕ → ℕ → List HeapFreeBlock → Type 0
IsApart start size [] = Unit
IsApart start size (b ∷ bs) =
    ((start + size ≤ b.addr) ⊎ (b.addr + b.size ≤ start)) × IsApart start size bs

pub IsFree-lower :
    (bs : List HeapFreeBlock) (lo lo' hi : ℕ) → lo' ≤ lo → IsFree lo hi bs → IsFree lo' hi bs
IsFree-lower [] lo lo' hi le h = tt
IsFree-lower (b ∷ bs) lo lo' hi le h = (omega arith, h.1, h.2, h.3)

pub IsFree-higher :
    (bs : List HeapFreeBlock) (lo hi hi' : ℕ) → hi ≤ hi' → IsFree lo hi bs → IsFree lo hi' bs
IsFree-higher [] lo hi hi' le h = tt
IsFree-higher (b ∷ bs) lo hi hi' le h =
    (h.0, h.1, omega arith, IsFree-higher bs (suc (b.addr + b.size)) hi hi' le h.3)

-- A block before the others, which it may touch.
join-IsFree :
    (b : HeapFreeBlock) (bs : List HeapFreeBlock) (lo hi : ℕ)
    → lo ≤ b.addr
    → 0 < b.size
    → b.addr + b.size ≤ hi
    → IsFree (b.addr + b.size) hi bs
    → IsFree lo hi (join b bs)
unfolding join
join-IsFree b [] lo hi le pos fits h = (le, pos, fits, tt)
join-IsFree b (x ∷ xs) lo hi le pos fits h = elim (Bool-cases (block_end b == x.addr)) [
  | inl touch ↦ rw touch (
    le,
    omega arith,
    ground (arith, touch),
    IsFree-lower xs (suc (x.addr + x.size)) (suc (b.addr + (b.size + x.size))) hi
        (ground (arith, touch)) h.3,
  )
  | inr apart ↦ rw apart (le, pos, fits, (ground (arith, apart), h.1, h.2, h.3))
]

-- A list that is apart from a range and begins behind its start begins behind its end.
pub IsApart-after :
    (bs : List HeapFreeBlock) (start size lo hi : ℕ)
    → start < lo
    → IsFree lo hi bs
    → IsApart start size bs
    → IsFree (start + size) hi bs
IsApart-after [] start size lo hi lt h a = tt
IsApart-after (b ∷ bs) start size lo hi lt h a = elim a.0 [
  | inl le ↦ (le, h.1, h.2, h.3)
  | inr le ↦ absurd (omega arith)
]

pub place-IsFree :
    (bs : List HeapFreeBlock) (start size lo hi : ℕ)
    → 0 < size
    → lo ≤ start
    → start + size ≤ hi
    → IsFree lo hi bs
    → IsApart start size bs
    → IsFree lo hi (place start size bs)
unfolding place
place-IsFree [] start size lo hi pos le fits h a = (le, pos, fits, tt)
place-IsFree (x ∷ xs) start size lo hi pos le fits h a = elim (Bool-cases (ltb start x.addr)) [
  | inl before ↦ rw before (
      join-IsFree (record { addr = start; size = size }) (x ∷ xs) lo hi le pos fits
        (IsApart-after (x ∷ xs) start size (suc start) hi (omega arith)
          (ground (arith, before), h.1, h.2, h.3) a))
  | inr behind ↦ elim (Bool-cases (block_end x == start)) [
    | inl touch ↦
        rw (behind, touch)
          (join-IsFree (record x { size = x.size + size }) xs lo hi h.0 (omega arith)
            (ground (arith, touch))
            (IsFree-lower xs (start + size) (x.addr + (x.size + size)) hi (ground (arith, touch)) (
              IsApart-after xs start size (suc (x.addr + x.size)) hi (ground (arith, touch)) h.3
                a.1)))
    | inr past ↦
        rw (behind, past)
          (
            h.0,
            h.1,
            h.2,
            place-IsFree xs start size (suc (x.addr + x.size)) hi pos
                (elim a.0 [ inl le' ↦ ground (arith, behind) | inr le' ↦ ground (arith, past) ])
                fits h.3 a.1,
          )
  ]
]
