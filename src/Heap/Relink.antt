-- ===== src/Heap/Relink.antt =====
-- The merges of `free_block` of libraries/increasing_heap_allocator, by what the scan has found.
use emerald.Prelude.{
  ℕ, ◌+◌, ◌≤◌, ◌<◌, ◌≡◌, inl, inr, refl, ap, ◌∙◌, Option, none, some, List, [], ◌∷◌, arith, ◌==◌,
  Bool-cases, ==_of_ne, ==-self,
}
use emerald.Heap.{HeapFreeBlock, grow_at, remove_at, replace_at, insert_after, relink}
use emerald.Heap.Place.{join, IsFree}
use emerald.Heap.Scan.{head_at}

-- What lies in front of the blocks still to be scanned: at most the closest block before them.
abbrev pub front : Option HeapFreeBlock → List HeapFreeBlock → List HeapFreeBlock
front none bs = bs
front (some x) bs = x ∷ bs

abbrev pub IsBefore : Option HeapFreeBlock → ℕ → Type 0
IsBefore none lo = Unit
IsBefore (some x) lo = x.addr < lo

-- The block found, if there is one, is behind an address.
abbrev pub IsBehind : ℕ → Option HeapFreeBlock → Type 0
IsBehind addr none = Unit
IsBehind addr (some b) = addr < b.addr

abbrev pub IsFound : ℕ → Option HeapFreeBlock → Type 0
IsFound addr none = ⊥
IsFound addr (some b) = addr ≤ b.addr

-- The writes do not touch a block in front of all that the scan has found.
pub relink-front :
    (start size : ℕ) (c : Option HeapFreeBlock) (p n : Option HeapFreeBlock) (k : HeapFreeBlock)
    (bs : List HeapFreeBlock)
    → ((x : HeapFreeBlock) → c ≡ some x → IsBehind x.addr p × IsBehind x.addr n × (x.addr < k.addr))
    → relink start size (record { prev = p; next = n; closest_prev = some k }) (front c bs)
      ≡ front c (relink start size (record { prev = p; next = n; closest_prev = some k }) bs)
unfolding relink grow_at remove_at replace_at insert_after
relink-front start size none p n k bs h = refl
relink-front start size (some x) (some p) (some n) k bs h =
    rw
      (
        ==_of_ne x.addr n.addr (λ e. omega (arith, (h x refl).1)),
        ==_of_ne x.addr p.addr (λ e. omega (arith, (h x refl).0)),
      )
      refl
relink-front start size (some x) (some p) none k bs h =
    rw (==_of_ne x.addr p.addr (λ e. omega (arith, (h x refl).0))) refl
relink-front start size (some x) none (some n) k bs h =
    rw (==_of_ne x.addr n.addr (λ e. omega (arith, (h x refl).1))) refl
relink-front start size (some x) none none k bs h =
    rw (==_of_ne x.addr k.addr (λ e. omega (arith, (h x refl).2))) refl

-- Where no block ends at the start, and the others begin at the end or later.
pub relink-next :
    (start size hi : ℕ) (c : Option HeapFreeBlock) (bs : List HeapFreeBlock)
    → IsFree (start + size) hi bs
    → IsBefore c (start + size)
    → relink start size
        (record { prev = none; next = head_at (start + size) none bs; closest_prev = c })
        (front c bs)
      ≡ front c (join (record { addr = start; size = size }) bs)
unfolding relink replace_at insert_after join head_at
relink-next start size hi none [] h b = refl
relink-next start size hi (some x) [] h b = rw (==-self x.addr) refl
relink-next start size hi none (y ∷ ys) h b = elim (Bool-cases (start + size == y.addr)) [
  | inl t ↦ rw (t, ==-self y.addr) (ap (λ s. record { addr = start; size = s } ∷ ys) (omega arith))
  | inr f ↦ rw f refl
]
relink-next start size hi (some x) (y ∷ ys) h b = elim (Bool-cases (start + size == y.addr)) [
  | inl t ↦
      rw (t, ==_of_ne x.addr y.addr (λ e. omega (arith, h.0)), ==-self y.addr)
        (ap (λ s. x ∷ record { addr = start; size = s } ∷ ys) (omega arith))
  | inr f ↦ rw (f, ==-self x.addr) refl
]

-- Where a block ends at the start.
pub relink-prev :
    (start size hi : ℕ) (y : HeapFreeBlock) (ys : List HeapFreeBlock)
    → y.addr + y.size ≡ start
    → 0 < y.size
    → 0 < size
    → IsFree (start + size) hi ys
    → relink start size
        (record { prev = some y; next = head_at (start + size) none ys; closest_prev = some y })
        (y ∷ ys)
      ≡ join (record y { size = y.size + size }) ys
unfolding relink grow_at remove_at join head_at
relink-prev start size hi y [] e py ps h = rw (==-self y.addr) refl
relink-prev start size hi y (z ∷ zs) e py ps h = elim (Bool-cases (start + size == z.addr)) [
  | inl t ↦
      rw
        (
          t,
          ==_of_ne y.addr z.addr (λ e'. omega (arith, h.0)),
          ==-self z.addr,
          ==-self y.addr,
          same ∙ t,
        )
        (ap (λ s. record y { size = s } ∷ zs) (omega arith))
  | inr f ↦ rw (f, ==-self y.addr, same ∙ f) refl
]
  where
    same : (y.addr + (y.size + size) == z.addr) ≡ (start + size == z.addr)
    same = ap (λ s. s == z.addr) (omega arith)
