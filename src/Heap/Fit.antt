-- ===== src/Heap/Fit.antt =====
-- The search for the best block in `get_free_block` of libraries/increasing_heap_allocator.
use emerald.Prelude.{
  ℕ, ◌≤◌, ◌<◌, ◌≡◌, ◌⊎◌, inl, inr, refl, sym, true, false, Option, none, some, List, [], ◌∷◌, arith,
  Bool-cases,
}
use emerald.Heap.{HeapFreeBlock, is_better, best_fit}

abbrev pub Has : HeapFreeBlock → List HeapFreeBlock → Type 0
Has b [] = ⊥
Has b (x ∷ xs) = (b ≡ x) ⊎ Has b xs

-- Of the blocks with room for `size`, none is smaller than `n`.
abbrev pub IsLeast : ℕ → ℕ → List HeapFreeBlock → Type 0
IsLeast size n [] = Unit
IsLeast size n (x ∷ xs) = (size ≤ x.size → n ≤ x.size) × IsLeast size n xs

-- No block has room for `size`.
abbrev pub NoneFits : ℕ → List HeapFreeBlock → Type 0
NoneFits size [] = Unit
NoneFits size (x ∷ xs) = (x.size < size) × NoneFits size xs

-- A block, where there is one, has at least `n` bytes.
abbrev HasRoom : ℕ → Option HeapFreeBlock → Type 0
HasRoom n none = Unit
HasRoom n (some b) = n ≤ b.size

-- What the search comes to, from the best block so far.
abbrev Found : ℕ → Option HeapFreeBlock → List HeapFreeBlock → Option HeapFreeBlock → Type 0
Found size best bs none = (best ≡ none) × NoneFits size bs
Found size best bs (some b) =
    ((best ≡ some b) ⊎ Has b bs) × (size ≤ b.size) × IsLeast size b.size bs × HasRoom b.size best

keep_lem :
    (size : ℕ) (x : HeapFreeBlock) (xs : List HeapFreeBlock) (best r : Option HeapFreeBlock)
    → is_better size x best ≡ false
    → Found size best xs r
    → Found size best (x ∷ xs) r
unfolding is_better
keep_lem size x xs none none e (n, fits) = (n, (ground (arith, e), fits))
keep_lem size x xs (some c) none e (n, fits) = absurd cc
keep_lem size x xs best (some b) e (there, room, least, most) =
    (elim there [ inl h ↦ inl h | inr h ↦ inr (inr h) ], room, (at_head best e most, least), most)
  where
    at_head :
        (o : Option HeapFreeBlock)
        → is_better size x o ≡ false
        → HasRoom b.size o
        → size ≤ x.size
        → b.size ≤ x.size
    at_head none e' m le = ground (arith, e')
    at_head (some c) e' m le = ground (arith, e')

take_lem :
    (size : ℕ) (x : HeapFreeBlock) (xs : List HeapFreeBlock) (best r : Option HeapFreeBlock)
    → is_better size x best ≡ true
    → Found size (some x) xs r
    → Found size best (x ∷ xs) r
unfolding is_better
take_lem size x xs best none e (n, fits) = absurd cc
take_lem size x xs best (some b) e (there, room, least, most) = (
  inr (elim there [ inl h ↦ inl (sym (some-inj x b h)) | inr h ↦ inr h ]),
  room,
  ((λ le. most), least),
  before best e,
)
  where
    before : (o : Option HeapFreeBlock) → is_better size x o ≡ true → HasRoom b.size o
    before none e' = tt
    before (some c) e' = ground (arith, e', most)

    some-inj : (m n : HeapFreeBlock) → some m ≡ some n → m ≡ n
    some-inj m n h = cc

search_finds :
    (size : ℕ) (bs : List HeapFreeBlock) (best : Option HeapFreeBlock)
    → HasRoom size best
    → Found size best bs (best_fit size best bs)
unfolding best_fit
search_finds size [] none h = (refl, tt)
search_finds size [] (some b) h = (inl refl, h, tt, omega arith)
search_finds size (x ∷ xs) best h = elim (Bool-cases (is_better size x best)) [
  | inl e ↦ rw e (
      take_lem size x xs best (best_fit size (some x) xs) e
        (search_finds size xs (some x) (room best e)))
  | inr e ↦ rw e (keep_lem size x xs best (best_fit size best xs) e (search_finds size xs best h))
]
  where
    room : (o : Option HeapFreeBlock) → is_better size x o ≡ true → size ≤ x.size
    room none e = ground (arith, e)
    room (some c) e = ground (arith, e)

-- The search finds the smallest block with room for `size`, or there is none with room for it.
pub best_fit-IsLeast :
    (size : ℕ) (bs : List HeapFreeBlock)
    → ((best_fit size none bs ≡ none) × NoneFits size bs)
      ⊎ ((b : HeapFreeBlock) × (best_fit size none bs ≡ some b)
          × Has b bs
          × (size ≤ b.size)
          × IsLeast size b.size bs)
best_fit-IsLeast size bs = go (best_fit size none bs) refl (search_finds size bs none tt)
  where
    go :
        (o : Option HeapFreeBlock)
        → best_fit size none bs ≡ o
        → Found size none bs o
        → ((best_fit size none bs ≡ none) × NoneFits size bs)
          ⊎ ((b : HeapFreeBlock) × (best_fit size none bs ≡ some b)
              × Has b bs
              × (size ≤ b.size)
              × IsLeast size b.size bs)
    go none e f = inl (e, f.1)
    go (some b) e f = inr (b, e, elim f.0 [ inl h ↦ absurd cc | inr h ↦ h ], f.1, f.2)
