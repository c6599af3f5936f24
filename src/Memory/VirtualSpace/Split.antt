-- ===== src/Memory/VirtualSpace/Split.antt =====
-- `allocate` of kernel/src/memory_management/virtual_space.rs: the free entry that it splits.
use emerald.Prelude.{
  ℕ, ◌+◌, ◌-◌, ◌≤◌, ◌≡◌, inl, inr, refl, sym, ap, ◌∙◌, true, ◌&&◌, none, some, List, [], ◌∷◌, ◌++◌,
  arith, leb, Bool-cases, Option-cases,
}
use mathlib.Core.Path.{subst, subst₂}
use emerald.Memory.VirtualSpace.{Entry, is_free, allocate_first}
use emerald.Memory.VirtualSpace.Tiling.{
  Tiles, mappings, Tiles-replace, mappings-append, mapping_at-free, Inserts,
}

-- The two entries that a free entry `e` is split into.
abbrev pub taken : Entry → ℕ → ℕ → Entry
taken e phy size = record e { size = size; physical_start = some phy }

abbrev pub left_over : Entry → ℕ → Entry
left_over e size = record {
  physical_start = none;
  virtual_start = e.virtual_start + size;
  size = e.size - size;
}

-- What the loop of `allocate` does where it finds room.
pub record Splits (es : List Entry) (phy size addr : ℕ) (es' : List Entry) : Type 0 where
  before : List Entry
  entry : Entry
  after : List Entry
  old : es ≡ before ++ (entry ∷ after)
  new : es' ≡ before ++ (taken entry phy size ∷ left_over entry size ∷ after)
  free : is_free entry ≡ true
  fits : size ≤ entry.size
  here : addr ≡ entry.virtual_start

pub Splits-cons :
    (x : Entry) (es : List Entry) (phy size addr : ℕ) (es' : List Entry)
    → Splits es phy size addr es'
    → Splits (x ∷ es) phy size addr (x ∷ es')
Splits-cons x es phy size addr es' s = record {
  before = x ∷ s.before;
  entry = s.entry;
  after = s.after;
  old = ap (λ l. x ∷ l) s.old;
  new = ap (λ l. x ∷ l) s.new;
  free = s.free;
  fits = s.fits;
  here = s.here;
}

pub allocate_first-Splits :
    (es : List Entry) (phy size addr : ℕ) (es' : List Entry)
    → allocate_first es phy size ≡ some (addr, es')
    → Splits es phy size addr es'
unfolding allocate_first
allocate_first-Splits [] phy size addr es' e = cc
allocate_first-Splits (x ∷ es) phy size addr es' e =
    elim (Bool-cases (is_free x && leb size x.size)) [
      | inl room ↦ record {
        before = [];
        entry = x;
        after = es;
        old = refl;
        new = ground arith;
        free = ground arith;
        fits = ground arith;
        here = ground arith;
      }
      | inr none_here ↦ elim (Option-cases (allocate_first es phy size)) [
        | inl nothing ↦ ground (arith, e, nothing, none_here)
        | inr ((a, l), found) ↦
            let p : a ≡ addr = ground (arith, e, found, none_here) in
            let q : x ∷ l ≡ es' = ground (arith, e, found, none_here) in
            subst₂ (λ a' l'. Splits (x ∷ es) phy size a' l') p q
              (Splits-cons x es phy size a l (allocate_first-Splits es phy size a l found))
      ]
    ]

pub Splits-Tiles :
    (es : List Entry) (phy size addr : ℕ) (es' : List Entry) (start stop : ℕ)
    → Splits es phy size addr es'
    → Tiles start es stop
    → Tiles start es' stop
Splits-Tiles es phy size addr es' start stop s t =
    subst (λ l. Tiles start l stop) (sym s.new)
      (Tiles-replace s.before _ _ start stop
        (λ mid h. (
          h.0,
          (ap (λ k. k + size) h.0, subst (λ k. Tiles k s.after stop) (omega (arith, s.fits)) h.1),
        ))
        (subst (λ l. Tiles start l stop) s.old t))

pub Splits-Inserts :
    (es : List Entry) (phy size addr : ℕ) (es' : List Entry)
    → Splits es phy size addr es'
    → Inserts (record { physical = phy; virtual = addr; bytes = size }) (mappings es) (mappings es')
Splits-Inserts es phy size addr es' s = record {
  before = mappings s.before;
  after = mappings s.after;
  old =
      ap mappings s.old
      ∙ mappings-append s.before (s.entry ∷ s.after)
      ∙ ap (λ l. mappings s.before ++ (l ++ mappings s.after))
          (mapping_at-free s.entry.physical_start s.entry.virtual_start s.entry.size s.free);
  new =
      ap mappings s.new
      ∙ mappings-append s.before _
      ∙ ap
          (λ a.
            mappings s.before
            ++ (record { physical = phy; virtual = a; bytes = size } ∷ mappings s.after))
          (sym s.here);
}
