-- ===== src/Heap/Count.antt =====
-- What a list of blocks covers, address by address, and how many bytes it has.
use emerald.Prelude.{
  ℕ, suc, ◌+◌, ◌%◌, ◌≤◌, ◌<◌, ◌≡◌, inl, inr, refl, ◌∙◌, ◌&&◌, List, [], ◌∷◌, arith, leb, ltb, ◌==◌,
  if◌then◌else◌, Bool-cases, dec_lt,
}
use emerald.Heap.{HeapFreeBlock, block_end}
use emerald.Heap.Place.{join, place, IsFree, IsApart}

-- 1 inside the range, and 0 outside it.
abbrev pub inside : ℕ → ℕ → ℕ → ℕ
inside a start size = if leb start a && ltb a (start + size) then 1 else 0

-- How many of the blocks hold the address.
abbrev pub count : ℕ → List HeapFreeBlock → ℕ
count a [] = 0
count a (b ∷ bs) = inside a b.addr b.size + count a bs

abbrev pub total : List HeapFreeBlock → ℕ
total [] = 0
total (b ∷ bs) = b.size + total bs

-- All blocks begin and end at a multiple of the header's alignment.
abbrev pub IsWhole : List HeapFreeBlock → Type 0
IsWhole [] = Unit
IsWhole (b ∷ bs) = (b.addr % 16 ≡ 0) × (b.size % 16 ≡ 0) × IsWhole bs

pub inside-split :
    (a start m n : ℕ) → inside a start (m + n) ≡ inside a start m + inside a (start + m) n
inside-split a start m n = ground arith

join-count :
    (a : ℕ) (b : HeapFreeBlock) (bs : List HeapFreeBlock)
    → count a (join b bs) ≡ inside a b.addr b.size + count a bs
unfolding join
join-count a b [] = refl
join-count a b (x ∷ xs) = ground arith

pub count-place :
    (a start size : ℕ) (bs : List HeapFreeBlock)
    → count a (place start size bs) ≡ inside a start size + count a bs
unfolding place
count-place a start size [] = refl
count-place a start size (x ∷ xs) = elim (Bool-cases (ltb start x.addr)) [
  | inl before ↦ rw before (join-count a (record { addr = start; size = size }) (x ∷ xs))
  | inr behind ↦ elim (Bool-cases (block_end x == start)) [
    | inl touch ↦
        rw (behind, touch)
          (join-count a (record x { size = x.size + size }) xs ∙ ground (arith, touch))
    | inr past ↦ rw (behind, past) (ground (arith, count-place a start size xs))
  ]
]

join-total : (b : HeapFreeBlock) (bs : List HeapFreeBlock) → total (join b bs) ≡ b.size + total bs
unfolding join
join-total b [] = refl
join-total b (x ∷ xs) = ground arith

pub total-place :
    (start size : ℕ) (bs : List HeapFreeBlock) → total (place start size bs) ≡ size + total bs
unfolding place
total-place start size [] = refl
total-place start size (x ∷ xs) = elim (Bool-cases (ltb start x.addr)) [
  | inl before ↦ rw before (join-total (record { addr = start; size = size }) (x ∷ xs))
  | inr behind ↦ elim (Bool-cases (block_end x == start)) [
    | inl touch ↦
        rw (behind, touch) (join-total (record x { size = x.size + size }) xs ∙ omega arith)
    | inr past ↦ rw (behind, past) (ground (arith, total-place start size xs))
  ]
]

join-IsWhole :
    (b : HeapFreeBlock) (bs : List HeapFreeBlock)
    → b.addr % 16 ≡ 0
    → b.size % 16 ≡ 0
    → IsWhole bs
    → IsWhole (join b bs)
unfolding join
join-IsWhole b [] ha hs w = (ha, hs, tt)
join-IsWhole b (x ∷ xs) ha hs w = elim (Bool-cases (block_end b == x.addr)) [
  | inl touch ↦ rw touch (ha, omega arith, w.2)
  | inr apart ↦ rw apart (ha, hs, w)
]

pub place-IsWhole :
    (start size : ℕ) (bs : List HeapFreeBlock)
    → start % 16 ≡ 0
    → size % 16 ≡ 0
    → IsWhole bs
    → IsWhole (place start size bs)
unfolding place
place-IsWhole start size [] ha hs w = (ha, hs, tt)
place-IsWhole start size (x ∷ xs) ha hs w = elim (Bool-cases (ltb start x.addr)) [
  | inl before ↦ rw before (join-IsWhole (record { addr = start; size = size }) (x ∷ xs) ha hs w)
  | inr behind ↦ elim (Bool-cases (block_end x == start)) [
    | inl touch ↦
        rw (behind, touch)
          (join-IsWhole (record x { size = x.size + size }) xs w.0 (omega arith) w.2)
    | inr past ↦ rw (behind, past) (w.0, w.1, place-IsWhole start size xs ha hs w.2)
  ]
]

-- A range that no block covers anywhere is apart from all of them.
pub IsApart-count :
    (bs : List HeapFreeBlock) (start size lo hi : ℕ)
    → 0 < size
    → IsFree lo hi bs
    → ((a : ℕ) → start ≤ a → a < start + size → count a bs ≡ 0)
    → IsApart start size bs
IsApart-count [] start size lo hi pos h none_there = tt
IsApart-count (b ∷ bs) start size lo hi pos h none_there = (
  elim (dec_lt b.addr (start + size)) [
    | no n ↦ inl (omega arith)
    | yes lt ↦ elim (dec_lt start (b.addr + b.size)) [
      | no m ↦ inr (omega arith)
      | yes lt' ↦ elim (dec_lt start b.addr) [
        | yes later ↦ absurd (ground (arith, none_there b.addr (omega arith) lt, h.1))
        | no earlier ↦ absurd (ground (arith, none_there start (omega arith) (omega arith), lt'))
      ]
    ]
  ],
  IsApart-count bs start size (suc (b.addr + b.size)) hi pos h.3
      (λ a le lt. ground (arith, none_there a le lt)),
)

-- The blocks of the free list lie in the heap.
pub count-below :
    (bs : List HeapFreeBlock) (a lo hi : ℕ) → IsFree lo hi bs → a < lo → count a bs ≡ 0
count-below [] a lo hi h lt = refl
count-below (b ∷ bs) a lo hi h lt =
    ground (arith, count-below bs a (suc (b.addr + b.size)) hi h.3 (omega arith), h.0)
