-- ===== src/Heap/Carve.antt =====
-- What `alloc` of libraries/increasing_heap_allocator does to the free list: it takes a block, or
-- the front of one.
use emerald.Prelude.{
  ℕ, suc, ◌+◌, ◌-◌, ◌%◌, ◌≤◌, ◌<◌, ◌≡◌, inl, inr, refl, sym, ap, List, [], ◌∷◌, arith, ==_of_ne,
  ==-self,
}
use mathlib.Core.Path.{subst}
use emerald.Heap.{HeapFreeBlock, remove_at, replace_at}
use emerald.Heap.Place.{IsFree, IsFree-lower}
use emerald.Heap.Count.{count, total, inside, inside-split, IsWhole}
use emerald.Heap.Fit.{Has}

-- The range has been taken out of the free list `bs`, and `bs'` is what is left.
abbrev pub Carves : ℕ → ℕ → ℕ → ℕ → List HeapFreeBlock → List HeapFreeBlock → Type 0
Carves lo hi start taken bs bs' =
    IsFree lo hi bs'
    × IsWhole bs'
    × ((a : ℕ) → count a bs ≡ inside a start taken + count a bs')
    × (total bs ≡ taken + total bs')

Has-lower :
    (b : HeapFreeBlock) (bs : List HeapFreeBlock) (lo hi : ℕ)
    → Has b bs
    → IsFree lo hi bs
    → lo ≤ b.addr
Has-lower b [] lo hi h f = absurd h
Has-lower b (x ∷ xs) lo hi (inl e) f = rw e f.0
Has-lower b (x ∷ xs) lo hi (inr h) f =
    omega (arith, Has-lower b xs (suc (x.addr + x.size)) hi h f.3, f.0)

pub Has-upper :
    (b : HeapFreeBlock) (bs : List HeapFreeBlock) (lo hi : ℕ)
    → Has b bs
    → IsFree lo hi bs
    → IsWhole bs
    → (b.addr + b.size ≤ hi) × (0 < b.size) × (b.addr % 16 ≡ 0) × (b.size % 16 ≡ 0)
Has-upper b [] lo hi h f w = absurd h
Has-upper b (x ∷ xs) lo hi (inl e) f w = rw e (f.2, f.1, w.0, w.1)
Has-upper b (x ∷ xs) lo hi (inr h) f w = Has-upper b xs (suc (x.addr + x.size)) hi h f.3 w.2

Carves-there :
    (x : HeapFreeBlock) (xs xs' : List HeapFreeBlock) (lo hi start taken : ℕ)
    → IsFree lo hi (x ∷ xs)
    → IsWhole (x ∷ xs)
    → Carves (suc (x.addr + x.size)) hi start taken xs xs'
    → Carves lo hi start taken (x ∷ xs) (x ∷ xs')
Carves-there x xs xs' lo hi start taken f w c =
    ((f.0, f.1, f.2, c.0), (w.0, w.1, c.1), λ a. omega (arith, c.2 a), omega (arith, c.3))

pub remove_at-Carves :
    (b : HeapFreeBlock) (bs : List HeapFreeBlock) (lo hi : ℕ)
    → Has b bs
    → IsFree lo hi bs
    → IsWhole bs
    → Carves lo hi b.addr b.size bs (remove_at b.addr bs)
unfolding remove_at
remove_at-Carves b [] lo hi h f w = absurd h
remove_at-Carves b (x ∷ xs) lo hi (inl e) f w =
    rw (e, ==-self x.addr)
      (IsFree-lower xs (suc (x.addr + x.size)) lo hi (omega (arith, f.0)) f.3, w.2, λ a. refl, refl)
remove_at-Carves b (x ∷ xs) lo hi (inr h) f w =
    rw
      (==_of_ne x.addr b.addr
        (λ e. omega (arith, e, Has-lower b xs (suc (x.addr + x.size)) hi h f.3)))
      (Carves-there x xs (remove_at b.addr xs) lo hi b.addr b.size f w
        (remove_at-Carves b xs (suc (x.addr + x.size)) hi h f.3 w.2))

replace_head :
    (x : HeapFreeBlock) (xs : List HeapFreeBlock) (lo hi n : ℕ)
    → IsFree lo hi (x ∷ xs)
    → IsWhole (x ∷ xs)
    → n < x.size
    → n % 16 ≡ 0
    → Carves lo hi x.addr n (x ∷ xs) (record { addr = x.addr + n; size = x.size - n } ∷ xs)
replace_head x xs lo hi n f w lt m = (
  (
    omega (arith, f.0),
    omega arith,
    omega (arith, f.2),
    subst (λ y. IsFree (suc y) hi xs) (omega arith) f.3,
  ),
  (omega (arith, w.0), omega (arith, w.1), w.2),
  λ a.
      omega (
        arith,
        inside-split a x.addr n (x.size - n),
        ap (inside a x.addr) (size_split x.size n lt),
      ),
  omega arith,
)
  where
    size_split : (s k : ℕ) → k < s → s ≡ k + (s - k)
    size_split s k lt' = omega arith

pub replace_at-Carves :
    (b : HeapFreeBlock) (bs : List HeapFreeBlock) (lo hi n : ℕ)
    → Has b bs
    → IsFree lo hi bs
    → IsWhole bs
    → n < b.size
    → n % 16 ≡ 0
    → Carves lo hi b.addr n bs
        (replace_at b.addr (record { addr = b.addr + n; size = b.size - n }) bs)
unfolding replace_at
replace_at-Carves b [] lo hi n h f w lt m = absurd h
replace_at-Carves b (x ∷ xs) lo hi n (inl e) f w lt m =
    subst
      (λ y.
        (n < y.size
          → Carves lo hi y.addr n (x ∷ xs)
              (replace_at y.addr (record { addr = y.addr + n; size = y.size - n }) (x ∷ xs))))
      (sym e) (λ lt'. rw (==-self x.addr) (replace_head x xs lo hi n f w lt' m)) lt
replace_at-Carves b (x ∷ xs) lo hi n (inr h) f w lt m =
    rw
      (==_of_ne x.addr b.addr
        (λ e. omega (arith, e, Has-lower b xs (suc (x.addr + x.size)) hi h f.3)))
      (Carves-there x xs _ lo hi b.addr n f w
        (replace_at-Carves b xs (suc (x.addr + x.size)) hi n h f.3 w.2 lt m))
