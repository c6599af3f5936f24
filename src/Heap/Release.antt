-- ===== src/Heap/Release.antt =====
-- `free_block` of libraries/increasing_heap_allocator against its reference.
use emerald.Prelude.{
  ℕ, ◌+◌, ◌≤◌, ◌<◌, ◌≡◌, ◌⊎◌, inl, inr, refl, sym, ap, ◌∙◌, true, ◌||◌, none, List, [], ◌∷◌, arith,
  leb, ◌==◌, Bool-cases, Outcome, ok, panic, ensure, bind-ok, ensure-ok, undefined, dec_lt, leb→le,
  Post, Post-bind, Post-map, ensure-Post,
}
use mathlib.Core.Path.{subst}
use emerald.Heap.{HeapFreeBlock, block_end, Around, nothing_around, look, look_all, free_block}
use emerald.Heap.Place.{place, IsFree, IsApart}
use emerald.Heap.Walk.{Relinked, scan_relinks}

pub free_block-ok :
    (heap_end start size lo : ℕ) (bs : List HeapFreeBlock)
    → 0 < size
    → IsFree lo heap_end bs
    → start + size ≤ heap_end
    → IsApart start size bs
    → free_block heap_end start size bs ≡ ok (place start size bs)
unfolding free_block
free_block-ok heap_end start size lo bs pos h fits apart =
    ensure-ok (leb start heap_end) _ (ground arith)
    ∙ ensure-ok (leb (start + size) heap_end) _ (ground arith)
    ∙ bind-ok (look_all start (start + size) nothing_around bs) scanned.0 _ scanned.1.0
    ∙ ap ok scanned.1.1
  where
    scanned : (a : Around) × Relinked start size none bs a
    scanned = scan_relinks bs start size lo heap_end none pos tt tt h apart

-- The scan lets no overlap through.
look-IsApart :
    (x : HeapFreeBlock) (start end : ℕ) (a : Around)
    → Post (λ a'. (end ≤ x.addr) ⊎ (x.addr + x.size ≤ start)) (look start end a x)
unfolding look
look-IsApart x start end a = elim (Bool-cases (x.addr == start)) [
  | inl t ↦ rw t tt
  | inr f ↦ rw f (
      Post-bind (λ u. (leb end x.addr || leb (block_end x) start) ≡ true)
        (λ a'. (end ≤ x.addr) ⊎ (x.addr + x.size ≤ start))
        (ensure (leb end x.addr || leb (block_end x) start)) _ (ensure-Post _) (λ u e. apart e))
]
  where
    apart :
        (leb end x.addr || leb (block_end x) start) ≡ true
        → (end ≤ x.addr) ⊎ (x.addr + x.size ≤ start)
    apart e = elim (dec_lt x.addr end) [
      | yes lt ↦ inr (ground (arith, e))
      | no n ↦ inl (omega arith)
    ]

look_all-IsApart :
    (bs : List HeapFreeBlock) (start size : ℕ) (a : Around)
    → Post (λ a'. IsApart start size bs) (look_all start (start + size) a bs)
unfolding look_all
look_all-IsApart [] start size a = tt
look_all-IsApart (x ∷ xs) start size a =
    Post-bind (λ a'. (start + size ≤ x.addr) ⊎ (x.addr + x.size ≤ start))
      (λ a'. IsApart start size (x ∷ xs)) (look start (start + size) a x) _
      (look-IsApart x start (start + size) a)
      (λ a' h.
        Post-map (λ a''. IsApart start size xs) (λ a''. IsApart start size (x ∷ xs)) _
          (look_all-IsApart xs start size a') (λ a'' k. (h, k)))

free_block-Post :
    (heap_end start size : ℕ) (bs : List HeapFreeBlock)
    → Post
        (λ bs'. (start + size ≤ heap_end) × IsApart start size bs)
        (free_block heap_end start size bs)
unfolding free_block
free_block-Post heap_end start size bs =
    Post-bind (λ u. Unit) _ (ensure (leb start heap_end)) _
      (Post-map _ _ _ (ensure-Post (leb start heap_end)) (λ u e. tt))
      (λ u k.
        Post-bind (λ v. leb (start + size) heap_end ≡ true) _ _ _
          (ensure-Post (leb (start + size) heap_end))
          (λ v e.
            Post-bind (λ a. IsApart start size bs) _
              (look_all start (start + size) nothing_around bs) _
              (look_all-IsApart bs start size nothing_around)
              (λ a p. (leb→le (start + size) heap_end e, p))))

ok≢panic : {A : Type 0} {a : A} → ok a ≡ panic → ⊥
ok≢panic e = subst is_ok e tt
  where
    is_ok : {A : Type 0} → Outcome A → Type 0
    is_ok (ok a) = Unit
    is_ok panic = ⊥
    is_ok undefined = ⊥

-- On a free list in order that lies in the heap, a block that is not empty is put in its place by
-- address and joined to the blocks it touches, if it lies in the heap and overlaps no free block;
-- otherwise, as when it is freed twice, the call panics.
pub free_block-place :
    (heap_end start size lo : ℕ) (bs : List HeapFreeBlock)
    → 0 < size
    → IsFree lo heap_end bs
    → ((start + size ≤ heap_end)
        × IsApart start size bs
        × (free_block heap_end start size bs ≡ ok (place start size bs)))
      ⊎ ((¬ ((start + size ≤ heap_end) × IsApart start size bs))
          × (free_block heap_end start size bs ≡ panic))
free_block-place heap_end start size lo bs pos h =
    go (free_block heap_end start size bs) refl (free_block-Post heap_end start size bs)
  where
    go :
        (o : Outcome (List HeapFreeBlock))
        → free_block heap_end start size bs ≡ o
        → Post (λ bs'. (start + size ≤ heap_end) × IsApart start size bs) o
        → ((start + size ≤ heap_end)
            × IsApart start size bs
            × (free_block heap_end start size bs ≡ ok (place start size bs)))
          ⊎ ((¬ ((start + size ≤ heap_end) × IsApart start size bs))
              × (free_block heap_end start size bs ≡ panic))
    go (ok bs') e p = inl (p.0, p.1, free_block-ok heap_end start size lo bs pos h p.0 p.1)
    go panic e p =
        inr (λ k. ok≢panic (sym (free_block-ok heap_end start size lo bs pos h k.0 k.1) ∙ e), e)
    go undefined e p = absurd p
