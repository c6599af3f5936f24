-- ===== src/Heap/Walk.antt =====
-- The whole scan of `free_block` of libraries/increasing_heap_allocator, and the merges after it.
use emerald.Prelude.{
  ℕ, suc, ◌+◌, ◌≤◌, ◌<◌, ◌≡◌, inl, inr, refl, sym, ap, ◌∙◌, true, false, Option, none, some, List,
  [], ◌∷◌, arith, ltb, ◌==◌, Bool-cases, ok, bind-ok, ==_iff,
}
use mathlib.Core.Path.{subst}
use emerald.Heap.{HeapFreeBlock, block_end, Around, is_closer, look_all, relink}
use emerald.Heap.Place.{join, place, IsFree, IsApart, IsApart-after}
use emerald.Heap.Scan.{head_at, look-before, look_all-next}
use emerald.Heap.Relink.{front, IsBefore, IsBehind, IsFound, relink-front, relink-next, relink-prev}

-- What the scan has found, and what the merges make of it.
abbrev pub Relinked : ℕ → ℕ → Option HeapFreeBlock → List HeapFreeBlock → Around → Type 0
Relinked start size c bs a =
    (look_all start (start + size) (record { prev = none; next = none; closest_prev = c }) bs
      ≡ ok a)
    × (relink start size a (front c bs) ≡ front c (place start size bs))
    × ((x : HeapFreeBlock)
        → c ≡ some x
        → IsBehind x.addr a.prev × IsBehind x.addr a.next × IsFound x.addr a.closest_prev)

head_at-IsBehind :
    (bs : List HeapFreeBlock) (end addr lo hi : ℕ)
    → addr < lo
    → IsFree lo hi bs
    → IsBehind addr (head_at end none bs)
unfolding head_at
head_at-IsBehind [] end addr lo hi lt h = tt
head_at-IsBehind (x ∷ xs) end addr lo hi lt h = elim (Bool-cases (end == x.addr)) [
  | inl t ↦ rw t (omega (arith, h.0))
  | inr f ↦ rw f tt
]

front-IsBefore :
    (c : Option HeapFreeBlock) (x : HeapFreeBlock) (n : ℕ) → c ≡ some x → IsBefore c n → x.addr < n
front-IsBefore c x n e b = subst (λ o. IsBefore o n) e b

front-IsFound : (c : Option HeapFreeBlock) (x : HeapFreeBlock) → c ≡ some x → IsFound x.addr c
front-IsFound c x e = subst (IsFound x.addr) (sym e) (omega arith)

scan_after :
    (bs : List HeapFreeBlock) (start size hi : ℕ) (c : Option HeapFreeBlock)
    → 0 < size
    → IsBefore c start
    → IsFree (start + size) hi bs
    → place start size bs ≡ join (record { addr = start; size = size }) bs
    → (a : Around) × Relinked start size c bs a
scan_after bs start size hi c pos before h placed = (
  record { prev = none; next = head_at (start + size) none bs; closest_prev = c },
  (
    look_all-next bs start (start + size) hi none c (omega arith) h,
    relink-next start size hi c bs h (IsBefore-later c before) ∙ ap (front c) (sym placed),
    λ x e. (
      tt,
      head_at-IsBehind bs (start + size) x.addr (start + size) hi
          (omega (arith, front-IsBefore c x start e before)) h,
      front-IsFound c x e,
    ),
  ),
)
  where
    IsBefore-later : (o : Option HeapFreeBlock) → IsBefore o start → IsBefore o (start + size)
    IsBefore-later none b = tt
    IsBefore-later (some x) b = omega arith

place-join :
    (bs : List HeapFreeBlock) (start size hi : ℕ)
    → IsFree (suc start) hi bs
    → place start size bs ≡ join (record { addr = start; size = size }) bs
unfolding place join
place-join [] start size hi h = refl
place-join (x ∷ xs) start size hi h = ground (arith, h.0)

is_closer-IsBefore :
    (c : Option HeapFreeBlock) (x : HeapFreeBlock) → IsBefore c x.addr → is_closer x c ≡ true
unfolding is_closer
is_closer-IsBefore none x b = refl
is_closer-IsBefore (some y) x b = ground (arith, b)

IsBefore-le : (c : Option HeapFreeBlock) (m n : ℕ) → m ≤ n → IsBefore c m → IsBefore c n
IsBefore-le none m n le b = tt
IsBefore-le (some x) m n le b = omega arith

IsBehind-lt : (o : Option HeapFreeBlock) (m n : ℕ) → m < n → IsBehind n o → IsBehind m o
IsBehind-lt none m n lt h = tt
IsBehind-lt (some b) m n lt h = omega arith

IsFound-lt : (o : Option HeapFreeBlock) (m n : ℕ) → m < n → IsFound n o → IsFound m o
IsFound-lt none m n lt h = absurd h
IsFound-lt (some b) m n lt h = omega arith

-- What the scan of the blocks behind a block finds is behind every block before it.
relink-past :
    (start size : ℕ) (c : Option HeapFreeBlock) (x : HeapFreeBlock) (xs : List HeapFreeBlock)
    (p n k : Option HeapFreeBlock)
    → IsBefore c x.addr
    → IsBehind x.addr p × IsBehind x.addr n × IsFound x.addr k
    → relink start size (record { prev = p; next = n; closest_prev = k }) (front c (x ∷ xs))
      ≡ front c (relink start size (record { prev = p; next = n; closest_prev = k }) (x ∷ xs))
relink-past start size c x xs p n none b h = absurd h.2
relink-past start size c x xs p n (some k) b h = relink-front start size c p n k (x ∷ xs) (λ y e. (
  IsBehind-lt p y.addr x.addr (front-IsBefore c y x.addr e b) h.0,
  IsBehind-lt n y.addr x.addr (front-IsBefore c y x.addr e b) h.1,
  omega (arith, front-IsBefore c y x.addr e b, h.2),
))

-- One step of the scan, past a block that does not reach the start.
scan_past :
    (x : HeapFreeBlock) (xs : List HeapFreeBlock) (start size : ℕ) (c : Option HeapFreeBlock)
    → 0 < size
    → 0 < x.size
    → x.addr + x.size ≤ start
    → (block_end x == start) ≡ false
    → IsBefore c x.addr
    → (a : Around) × Relinked start size (some x) xs a
    → (a : Around) × Relinked start size c (x ∷ xs) a
unfolding look_all place
scan_past x xs start size c pos px le f b (a, (looked, linked, behind)) = (
  a,
  (
    bind-ok _ (record { prev = none; next = none; closest_prev = some x }) _
          (look-before start (start + size) c x (omega arith) px le (is_closer-IsBefore c x b)
            ∙ rw f refl)
        ∙ looked,
    relink-past start size c x xs a.prev a.next a.closest_prev b (behind x refl)
        ∙ ap (front c) (linked ∙ sym placed),
    λ y e. (
      IsBehind-lt a.prev y.addr x.addr (front-IsBefore c y x.addr e b) (behind x refl).0,
      IsBehind-lt a.next y.addr x.addr (front-IsBefore c y x.addr e b) (behind x refl).1,
      IsFound-lt a.closest_prev y.addr x.addr (front-IsBefore c y x.addr e b) (behind x refl).2,
    ),
  ),
)
  where
    not_ltb : ltb start x.addr ≡ false
    not_ltb = ground arith

    placed : place start size (x ∷ xs) ≡ x ∷ place start size xs
    placed = rw (not_ltb, f) refl

-- One step of the scan, at the block that ends at the start.
scan_touch :
    (x : HeapFreeBlock) (xs : List HeapFreeBlock) (start size hi : ℕ) (c : Option HeapFreeBlock)
    → 0 < size
    → 0 < x.size
    → x.addr + x.size ≡ start
    → IsBefore c x.addr
    → IsFree (start + size) hi xs
    → (a : Around) × Relinked start size c (x ∷ xs) a
unfolding look_all place
scan_touch x xs start size hi c pos px e b h = (
  found,
  (
    bind-ok _ (record { prev = some x; next = none; closest_prev = some x }) _
          (look-before start (start + size) c x (omega arith) px (omega arith)
              (is_closer-IsBefore c x b)
            ∙ rw touch refl)
        ∙ look_all-next xs start (start + size) hi (some x) (some x) (omega arith) h,
    relink-front start size c (some x) (head_at (start + size) none xs) x (x ∷ xs) (λ y e'.
          (front-IsBefore c y x.addr e' b, (behind y e').1, front-IsBefore c y x.addr e' b))
        ∙ ap (front c) (relink-prev start size hi x xs e px pos h ∙ sym placed),
    λ y e'. behind y e',
  ),
)
  where
    found : Around
    found = record { prev = some x; next = head_at (start + size) none xs; closest_prev = some x }

    touch : (block_end x == start) ≡ true
    touch = (==_iff (block_end x) start).1 e

    not_ltb : ltb start x.addr ≡ false
    not_ltb = ground arith

    placed : place start size (x ∷ xs) ≡ join (record x { size = x.size + size }) xs
    placed = rw (not_ltb, touch) refl

    behind :
        (y : HeapFreeBlock)
        → c ≡ some y
        → (y.addr < x.addr) × IsBehind y.addr found.next × (y.addr ≤ x.addr)
    behind y e' = (
      front-IsBefore c y x.addr e' b,
      head_at-IsBehind xs (start + size) y.addr (start + size) hi
          (omega (arith, front-IsBefore c y x.addr e' b)) h,
      omega (arith, front-IsBefore c y x.addr e' b),
    )

pub scan_relinks :
    (bs : List HeapFreeBlock) (start size lo hi : ℕ) (c : Option HeapFreeBlock)
    → 0 < size
    → IsBefore c lo
    → IsBefore c start
    → IsFree lo hi bs
    → IsApart start size bs
    → (a : Around) × Relinked start size c bs a
scan_relinks [] start size lo hi c pos b bs h a =
    scan_after [] start size hi c pos bs tt (place-join [] start size hi tt)
scan_relinks (x ∷ xs) start size lo hi c pos b bs h a = elim a.0 [
  | inl after ↦
      scan_after (x ∷ xs) start size hi c pos bs (after, h.1, h.2, h.3)
        (place-join (x ∷ xs) start size hi (omega arith, h.1, h.2, h.3))
  | inr before ↦ elim (Bool-cases (block_end x == start)) [
    | inl t ↦ scan_touch x xs start size hi c pos h.1 ((==_iff (block_end x) start).0 t) earlier (
        IsApart-after xs start size (suc (x.addr + x.size)) hi
          (omega (arith, (==_iff (block_end x) start).0 t)) h.3 a.1)
    | inr f ↦ scan_past x xs start size c pos h.1 before f earlier (
        scan_relinks xs start size (suc (x.addr + x.size)) hi (some x) pos (omega arith)
          (omega (arith, h.1)) h.3 a.1)
  ]
]
  where
    earlier : IsBefore c x.addr
    earlier = IsBefore-le c lo x.addr h.0 b
