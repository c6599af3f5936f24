-- ===== src/Heap/Free.antt =====
-- `dealloc` of libraries/increasing_heap_allocator, on an allocation that is held.
use emerald.Prelude.{
  ℕ, ◌+◌, ◌-◌, ◌≤◌, ◌<◌, ◌≡◌, inl, inr, refl, ap, ◌∙◌, List, [], ◌∷◌, arith, leb, ltb, ok, bind-ok,
  ensure-ok,
}
use mathlib.Core.Path.{subst}
use emerald.Heap.{
  HeapFreeBlock, AllocatedHeapBlockInfo, HeapAllocator, PageAllocatorProvider, heap_magic,
  whole_layout, free_block, release, dealloc,
}
use emerald.Heap.Place.{IsApart, place, place-IsFree}
use emerald.Heap.Count.{
  count, total, inside, IsApart-count, count-place, total-place, place-IsWhole,
}
use emerald.Heap.Release.{free_block-ok}
use emerald.Heap.Invariant.{PageLaws, Allocation, taken_blocks, IsHeap, IsHeld, AllHeld, Picks}

Picks-count :
    (w : Allocation) (ws rest : List Allocation) (a : ℕ)
    → Picks w ws rest
    → count a (taken_blocks ws) ≡ inside a w.base w.taken + count a (taken_blocks rest)
Picks-count w [] rest a p = absurd p
Picks-count w (x ∷ xs) rest a (inl (e, e')) = rw (e', e) refl
Picks-count w (x ∷ xs) rest a (inr (rest', e, p)) = rw e (omega (arith, Picks-count w xs rest' a p))

Picks-total :
    (w : Allocation) (ws rest : List Allocation)
    → Picks w ws rest
    → total (taken_blocks ws) ≡ w.taken + total (taken_blocks rest)
Picks-total w [] rest p = absurd p
Picks-total w (x ∷ xs) rest (inl (e, e')) = rw (e', e) refl
Picks-total w (x ∷ xs) rest (inr (rest', e, p)) = rw e (omega (arith, Picks-total w xs rest' p))

Picks-AllHeld :
    (infos : ℕ → AllocatedHeapBlockInfo) (w : Allocation) (ws rest : List Allocation)
    → Picks w ws rest
    → AllHeld infos ws
    → IsHeld infos w × AllHeld infos rest
Picks-AllHeld infos w [] rest p h = absurd p
Picks-AllHeld infos w (x ∷ xs) rest (inl (e, e')) h = (subst (IsHeld infos) e h.0, rw e' h.1)
Picks-AllHeld infos w (x ∷ xs) rest (inr (rest', e, p)) h =
    go (Picks-AllHeld infos w xs rest' p h.1)
  where
    go : IsHeld infos w × AllHeld infos rest' → IsHeld infos w × AllHeld infos rest
    go (held, all) = (held, rw e (h.0, all))

-- No free block covers a byte of an allocation, and all its bytes lie in the heap.
byte_lem :
    (a start taken lo size c l l' : ℕ)
    → l ≡ inside a start taken + l'
    → c + l ≡ inside a lo size
    → start ≤ a
    → a < start + taken
    → (c ≡ 0) × (lo ≤ a) × (a < lo + size)
byte_lem a start taken lo size c l l' e p le lt =
    (ground (arith, e, p), ground (arith, e, p), ground (arith, e, p))

module _ {P : Type 0} {provider : PageAllocatorProvider P} (laws : PageLaws provider) where
  release-ok :
      (h : HeapAllocator P) (ptr size taken offset : ℕ) (bs : List HeapFreeBlock)
      → size ≤ taken
      → 32 ≤ offset
      → free_block (h.heap_start + h.total_heap_size) (ptr - offset) taken h.free_list ≡ ok bs
      → release h ptr size (record { magic = heap_magic; size = taken; pre_padding = offset })
        ≡ ok (record h {
          free_list = bs;
          used_size = h.used_size - taken;
          free_size = h.free_size + taken;
        })
  unfolding release
  release-ok h ptr size taken offset bs le room freed =
      ensure-ok (leb size taken) _ (ground arith)
      ∙ ensure-ok (leb 32 offset) _ (ground arith)
      ∙ bind-ok (free_block (h.heap_start + h.total_heap_size) (ptr - offset) taken h.free_list) bs
          _ freed

  -- On a heap that keeps its invariant, `dealloc` of an allocation that is held, with the layout it was made for, returns, and the
  -- invariant holds without the allocation.
  pub dealloc-IsHeap :
      (h : HeapAllocator P) (live rest : List Allocation) (w : Allocation)
      → IsHeap laws h live
      → Picks w live rest
      → (h' : HeapAllocator P) × (dealloc h (w.base + w.offset) w.layout ≡ ok h')
        × IsHeap laws h' rest
  unfolding dealloc
  dealloc-IsHeap h live rest w i p = (
    record h {
      free_list = place w.base w.taken h.free_list;
      used_size = h.used_size - w.taken;
      free_size = h.free_size + w.taken;
    },
    ensure-ok (ltb 0 (w.base + w.offset)) _ (ground (arith, held.0.1))
        ∙ bind-ok (whole_layout w.layout) held.0.5.0 _ held.0.5.1
        ∙ ap (release h (w.base + w.offset) held.0.5.0.1) held.0.0
        ∙ release-ok h (w.base + w.offset) held.0.5.0.1 w.taken w.offset
            (place w.base w.taken h.free_list) held.0.5.2 held.0.1 freed,
    record {
      ordered =
          place-IsFree h.free_list w.base w.taken h.heap_start (h.heap_start + h.total_heap_size)
            pos (byte w.base (omega arith) (omega (arith, pos))).1 fits i.ordered apart;
      whole = place-IsWhole w.base w.taken h.free_list held.0.4.0 held.0.4.1 i.whole;
      partition = λ a. omega (
        arith,
        count-place a w.base w.taken h.free_list,
        Picks-count w live rest a p,
        i.partition a,
      );
      free_total = omega (arith, total-place w.base w.taken h.free_list, i.free_total);
      used_total = omega (arith, Picks-total w live rest p, i.used_total);
      sizes = omega (arith, Picks-total w live rest p, i.used_total, i.sizes);
      held = held.1;
      valid = i.valid;
      contiguous = i.contiguous;
    },
  )
    where
      held : IsHeld h.infos w × AllHeld h.infos rest
      held = Picks-AllHeld h.infos w live rest p i.held

      pos : 0 < w.taken
      pos = omega (arith, held.0.1, held.0.2)

      byte :
          (a : ℕ)
          → w.base ≤ a
          → a < w.base + w.taken
          → (count a h.free_list ≡ 0) × (h.heap_start ≤ a) × (a < h.heap_start + h.total_heap_size)
      byte a le lt =
          byte_lem a w.base w.taken h.heap_start h.total_heap_size _ _ _
            (Picks-count w live rest a p) (i.partition a) le lt

      apart : IsApart w.base w.taken h.free_list
      apart =
          IsApart-count h.free_list w.base w.taken h.heap_start (h.heap_start + h.total_heap_size)
            pos i.ordered (λ a le lt. (byte a le lt).0)

      fits : w.base + w.taken ≤ h.heap_start + h.total_heap_size
      fits =
          omega
            (arith, pos, (byte (w.base + w.taken - 1) (omega (arith, pos)) (omega (arith, pos))).2)

      freed :
          free_block
            (h.heap_start + h.total_heap_size)
            (w.base + w.offset - w.offset)
            w.taken
            h.free_list
          ≡ ok (place w.base w.taken h.free_list)
      freed =
          ap (λ s. free_block (h.heap_start + h.total_heap_size) s w.taken h.free_list)
            (omega arith)
          ∙ free_block-ok (h.heap_start + h.total_heap_size) w.base w.taken h.heap_start h.free_list
              pos i.ordered fits apart
