-- ===== src/Memory/VirtualSpace/Reach.antt =====
-- Sequences of calls of kernel/src/memory_management/virtual_space.rs, from the empty list on.
use emerald.Prelude.{
  ℕ, ◌≡◌, refl, sym, inl, inr, false, none, some, List, [], ok, arith, Result, success, failure,
}
use mathlib.Core.Path.{subst}
use emerald.Memory.Layout.{kernel_extra_memory_base, kernel_last_possible_addr}
use emerald.Memory.VirtualSpace.{SpaceError, Entry, is_free, allocate, deallocate_from, deallocate}
use emerald.Memory.VirtualSpace.Tiling.{mappings, Apart, Tiles-Apart, IsSpace}
use emerald.Memory.VirtualSpace.Allocate.{allocate-IsSpace}
use emerald.Memory.VirtualSpace.Deallocate.{entry_before, deallocate-failure}
use emerald.Memory.VirtualSpace.Merge.{deallocate-Tiles}

-- One call that returns. A `deallocate` that succeeds has no free entry in front of the freed one.
pub data Step (es : List Entry) : List Entry → Type 0 where
  allocated :
      (phy size : ℕ) {r : Result SpaceError ℕ} {es' : List Entry}
      → allocate es phy size ≡ ok (r, es')
      → Step es es'
  refused :
      (addr size : ℕ) {err : SpaceError} {es' : List Entry}
      → deallocate es addr size ≡ ok (failure err, es')
      → Step es es'
  deallocated :
      (addr size : ℕ) {es' : List Entry}
      → deallocate es addr size ≡ ok (success tt, es')
      → ((p : Entry) → entry_before none es addr ≡ some p → is_free p ≡ false)
      → Step es es'

pub data Reach : List Entry → Type 0 where
  start : Reach []
  next : {es es' : List Entry} → Reach es → Step es es' → Reach es'

empty_refuses :
    (addr size : ℕ) (es' : List Entry) → deallocate [] addr size ≡ ok (success tt, es') → ⊥
unfolding deallocate deallocate_from
empty_refuses addr size es' e = ground (arith, e)

freed-IsSpace :
    (es : List Entry) (addr size : ℕ) (es' : List Entry)
    → IsSpace es
    → deallocate es addr size ≡ ok (success tt, es')
    → ((p : Entry) → entry_before none es addr ≡ some p → is_free p ≡ false)
    → IsSpace es'
freed-IsSpace es addr size es' (inl none_yet) e mapped = absurd (
    empty_refuses addr size es'
      (subst (λ l. deallocate l addr size ≡ ok (success tt, es')) none_yet e))
freed-IsSpace es addr size es' (inr t) e mapped =
    inr (deallocate-Tiles es addr size es' _ _ t e mapped)

Step-IsSpace : {es es' : List Entry} → Step es es' → IsSpace es → IsSpace es'
Step-IsSpace {es} (allocated phy size {r = r} {es' = es'} e) w =
    allocate-IsSpace es phy size r es' w e
Step-IsSpace {es} (refused addr size {err = err} {es' = es'} e) w =
    subst IsSpace (sym (deallocate-failure es addr size err es' e)) w
Step-IsSpace {es} (deallocated addr size {es' = es'} e mapped) w =
    freed-IsSpace es addr size es' w e mapped

pub Reach-IsSpace : {es : List Entry} → Reach es → IsSpace es
Reach-IsSpace start = inl refl
Reach-IsSpace (next r s) = Step-IsSpace s (Reach-IsSpace r)

in_space :
    (es : List Entry)
    → IsSpace es
    → Apart kernel_extra_memory_base (mappings es) kernel_last_possible_addr
in_space es (inl none_yet) =
    subst (λ l. Apart kernel_extra_memory_base (mappings l) kernel_last_possible_addr)
      (sym none_yet) (omega arith)
in_space es (inr t) = Tiles-Apart es _ _ t

-- After any sequence of calls of `allocate` and `deallocate` that return, in which each `deallocate`
-- that succeeds frees an entry without a free entry in front of it, no two live mappings overlap, and
-- all lie in the extra memory.
pub Reach-Apart :
    {es : List Entry}
    → Reach es
    → Apart kernel_extra_memory_base (mappings es) kernel_last_possible_addr
Reach-Apart {es} r = in_space es (Reach-IsSpace r)
