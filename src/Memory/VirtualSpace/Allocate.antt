-- ===== src/Memory/VirtualSpace/Allocate.antt =====
-- `allocate` of kernel/src/memory_management/virtual_space.rs: what each of its outcomes means.
use emerald.Prelude.{
  ℕ, zero, suc, ◌%◌, ◌+◌, ◌<◌, ◌≡◌, ◌⊎◌, ◌↔◌, inl, inr, refl, ◌∙◌, Bool, true, false, ◌&&◌, Option,
  none, some, List, [], ◌∷◌, ◌++◌, arith, ok, Result, success, failure, leb, ltb, Bool-cases,
  Option-cases,
}
use mathlib.Core.Path.{subst}
use emerald.Memory.Layout.{page_4k, is_aligned}
use emerald.Memory.VirtualSpace.{
  SpaceError, out_of_space, already_mapped, not_full_range, entry_not_found, Entry, is_free,
  starts_inside, ends_inside, find_containing, allocate_first, allocate, allocate_rounds, is_empty,
  whole_space,
}
use emerald.Memory.VirtualSpace.Tiling.{
  Tiles, Mapping, mapping_at, mappings, Inserts, Covered, IsSpace,
}
use emerald.Memory.VirtualSpace.Split.{allocate_first-Splits, Splits-Tiles, Splits-Inserts}

-- No free entry has room for `size` bytes.
abbrev pub NoRoom : ℕ → List Entry → Type 0
NoRoom size [] = Unit
NoRoom size (e ∷ es) = (is_free e ≡ true → e.size < size) × NoRoom size es

allocate_first-none :
    (es : List Entry) (phy size : ℕ) → allocate_first es phy size ≡ none → NoRoom size es
unfolding allocate_first
allocate_first-none [] phy size e = tt
allocate_first-none (x ∷ es) phy size e = elim (Option-cases (allocate_first es phy size)) [
  | inl nothing ↦ (λ f. ground (arith, e), allocate_first-none es phy size nothing)
  | inr ((a, l), found) ↦ absurd (ground (arith, e, found))
]

Covered-mapping_at :
    (o : Option ℕ) (v n phy : ℕ) (ms : List Mapping)
    → Covered phy (mapping_at o v n ++ ms) ↔ (
        ((elim o [ none ↦ false | some start ↦ leb start phy && ltb phy (start + n) ]) ≡ true)
        ⊎ Covered phy ms)
Covered-mapping_at none v n phy ms = (λ c. inr c, λ c. elim c [ inl e ↦ cc | inr d ↦ d ])
Covered-mapping_at (some p) v n phy ms = (
  λ c. elim c [ inl h ↦ inl (ground (arith, h)) | inr d ↦ inr d ],
  λ c. elim c [ inl h ↦ inl (ground (arith, h)) | inr d ↦ inr d ],
)

find_containing-Covered :
    (es : List Entry) (phy size : ℕ)
    → ((find_containing es phy size ≡ none) × ¬ Covered phy (mappings es))
      ⊎ (((f : Entry × Bool) × (find_containing es phy size ≡ some f)) × Covered phy (mappings es))
unfolding find_containing starts_inside
find_containing-Covered [] phy size = inl (refl, λ c. c)
find_containing-Covered (x ∷ es) phy size = elim (Bool-cases (starts_inside x phy)) [
  | inl here ↦ inr (
    ((x, ends_inside x phy size), rw here),
    (Covered-mapping_at x.physical_start x.virtual_start x.size phy (mappings es)).1 (inl here),
  )
  | inr past ↦ elim (find_containing-Covered es phy size) [
    | inl (e, nc) ↦ inl (
      ground (arith, past, e),
      λ c.
          elim ((Covered-mapping_at x.physical_start x.virtual_start x.size phy (mappings es)).0
            c) [ inl t ↦ cc | inr d ↦ nc d ],
    )
    | inr ((f, e), c) ↦ inr (
      (f, ground (arith, past, e)),
      (Covered-mapping_at x.physical_start x.virtual_start x.size phy (mappings es)).1 (inr c),
    )
  ]
]

-- What `allocate` means by each of its replies.
abbrev pub Allocated : List Entry → ℕ → ℕ → Result SpaceError ℕ → List Entry → Type 0
Allocated es phy size (success addr) es' =
    (¬ Covered phy (mappings es))
    × Inserts (record { physical = phy; virtual = addr; bytes = size }) (mappings es) (mappings es')
Allocated es phy size (failure out_of_space) es' =
    (¬ Covered phy (mappings es)) × (mappings es' ≡ mappings es) × NoRoom size es'
Allocated es phy size (failure already_mapped) es' = Covered phy (mappings es) × (es' ≡ es)
Allocated es phy size (failure not_full_range) es' = ⊥
Allocated es phy size (failure entry_not_found) es' = ⊥

module _ (phy size : ℕ) (pos : 0 < size) (phy_page : phy % page_4k ≡ 0)
    (size_page : size % page_4k ≡ 0) where
  round :
      (n : ℕ) (e : Entry) (es : List Entry)
      → (r : Result SpaceError ℕ) × (es' : List Entry) × (allocate_rounds (suc n) (e ∷ es) phy size
          ≡ ok (r, es'))
        × Allocated (e ∷ es) phy size r es'
  unfolding allocate_rounds is_aligned
  round n e es = elim (find_containing-Covered (e ∷ es) phy size) [
    | inr ((f, found), c) ↦ (failure already_mapped, e ∷ es, ground (arith, found), (c, refl))
    | inl (nothing, nc) ↦ elim (Option-cases (allocate_first (e ∷ es) phy size)) [
      | inl full ↦ (
        failure out_of_space,
        e ∷ es,
        ground (arith, nothing, full),
        (nc, refl, allocate_first-none (e ∷ es) phy size full),
      )
      | inr ((addr, es'), room) ↦ (
        success addr,
        es',
        ground (arith, nothing, room),
        (
          nc,
          Splits-Inserts (e ∷ es) phy size addr es'
              (allocate_first-Splits (e ∷ es) phy size addr es' room),
        ),
      )
    ]
  ]

  rounds-empty :
      (n : ℕ) → allocate_rounds (suc n) [] phy size ≡ allocate_rounds n (whole_space ∷ []) phy size
  unfolding allocate_rounds is_aligned find_containing allocate_first
  rounds-empty n = ground (arith, phy_page, size_page, pos)

  from_whole :
      (r : Result SpaceError ℕ) (es' : List Entry)
      → Allocated (whole_space ∷ []) phy size r es'
      → Allocated [] phy size r es'
  from_whole (success addr) es' h = h
  from_whole (failure out_of_space) es' h = h
  from_whole (failure already_mapped) es' h = absurd h.0
  from_whole (failure not_full_range) es' h = h
  from_whole (failure entry_not_found) es' h = h

  -- For a request of whole pages `allocate` always returns. It replies `already_mapped`, and leaves
  -- the list alone, exactly when a live mapping holds the first physical address. Otherwise it puts
  -- the request among the mappings, at the address that it returns, or leaves them as they are and
  -- replies `out_of_space`, and then no free entry has room.
  pub allocate_total :
      (es : List Entry)
      → (r : Result SpaceError ℕ) × (es' : List Entry) × (allocate es phy size ≡ ok (r, es'))
        × Allocated es phy size r es'
  unfolding allocate allocate_rounds is_aligned
  allocate_total [] =
      let (r, es', e, a) = round 0 whole_space [] in
      (r, es', rounds-empty 1 ∙ e, from_whole r es' a)
  allocate_total (e ∷ es) = round 1 e es

allocate_first-Tiles :
    (es : List Entry) (phy size addr : ℕ) (es' : List Entry) (start stop : ℕ)
    → allocate_first es phy size ≡ some (addr, es')
    → Tiles start es stop
    → Tiles start es' stop
allocate_first-Tiles es phy size addr es' start stop e t =
    Splits-Tiles es phy size addr es' start stop (allocate_first-Splits es phy size addr es' e) t

placed :
    (es : List Entry) (phy size addr : ℕ) (l : List Entry)
    → IsSpace es
    → allocate_first es phy size ≡ some (addr, l)
    → IsSpace l
unfolding allocate_first
placed [] phy size addr l w room = cc
placed (e ∷ es) phy size addr l (inl none_yet) room = cc
placed (e ∷ es) phy size addr l (inr t) room =
    inr (allocate_first-Tiles (e ∷ es) phy size addr l _ _ room t)

rounds-IsSpace :
    (n : ℕ) (es : List Entry) (phy size : ℕ) (r : Result SpaceError ℕ) (es' : List Entry)
    → IsSpace es
    → allocate_rounds n es phy size ≡ ok (r, es')
    → IsSpace es'
unfolding allocate_rounds
rounds-IsSpace zero es phy size r es' w e = cc
rounds-IsSpace (suc n) es phy size r es' w e = elim (Option-cases (find_containing es phy size)) [
  | inr (f, found) ↦ let same : es ≡ es' = ground (arith, e, found) in subst IsSpace same w
  | inl nothing ↦ elim (Option-cases (allocate_first es phy size)) [
    | inr ((addr, l), room) ↦
        let same : l ≡ es' = ground (arith, e, nothing, room) in
        subst IsSpace same (placed es phy size addr l w room)
    | inl full ↦ elim (Bool-cases (is_empty es)) [
      | inr there ↦
          let same : es ≡ es' = ground (arith, e, nothing, full, there) in subst IsSpace same w
      | inl gone ↦
          rounds-IsSpace n (whole_space ∷ []) phy size r es' (inr (refl, refl))
            (ground (arith, e, nothing, full, gone))
    ]
  ]
]

-- `allocate` keeps the entries a tiling of the extra memory, whatever it replies.
pub allocate-IsSpace :
    (es : List Entry) (phy size : ℕ) (r : Result SpaceError ℕ) (es' : List Entry)
    → IsSpace es
    → allocate es phy size ≡ ok (r, es')
    → IsSpace es'
unfolding allocate
allocate-IsSpace = rounds-IsSpace 2
