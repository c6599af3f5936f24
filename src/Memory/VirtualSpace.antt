-- ===== src/Memory/VirtualSpace.antt =====
-- kernel/src/memory_management/virtual_space.rs: `VirtualSpaceAllocator`, which hands out the
-- kernel's extra virtual memory for physical ranges. The entries of the linked list are a list, and
-- the cursor of `deallocate` is the list before it, nearest first, and the list from it on.
-- Physical addresses have 52 bits and the virtual range ends at `kernel_last_possible_addr`, so
-- the sums below do not overflow.
pub mod Tiling
pub mod Split
pub mod Allocate
pub mod Deallocate
pub mod Merge
pub mod Reach
mod Examples
use emerald.Prelude.{
  ℕ, zero, suc, ◌+◌, ◌-◌, ◌≡◌, Bool, true, false, ◌&&◌, ◌||◌, not, Option, none, some, List, [],
  ◌∷◌, Outcome, ok, panic, undefined, ◌>>=◌, ◌>>◌, ensure, Result, success, failure, ltb, leb, ◌==◌,
  if◌then◌else◌,
}
use emerald.Memory.Layout.{page_4k, is_aligned, kernel_extra_memory_base, kernel_extra_memory_size}

-- `VirtualSpaceError`
pub data SpaceError : Type 0 where
  out_of_space already_mapped not_full_range entry_not_found : SpaceError

-- `VirtualSpaceEntry`: a range of virtual addresses, mapped to physical memory or free.
pub record Entry : Type 0 where
  pub physical_start : Option ℕ
  pub virtual_start : ℕ
  pub size : ℕ

abbrev pub is_free : Entry → Bool
is_free e = elim (e.physical_start) [ none ↦ true | some _ ↦ false ]

-- The test of the loop in `get_entry_containing`.
pub starts_inside : Entry → ℕ → Bool
starts_inside e req_phy_start = elim (e.physical_start) [
  | none ↦ false
  | some start ↦ leb start req_phy_start && ltb req_phy_start (start + e.size)
]

-- Whether the request ends inside the entry that it starts in.
pub ends_inside : Entry → ℕ → ℕ → Bool
ends_inside e req_phy_start req_size = elim (e.physical_start) [
  | none ↦ false
  | some start ↦ leb (req_phy_start + req_size) (start + e.size)
]

pub find_containing : List Entry → ℕ → ℕ → Option (Entry × Bool)
find_containing [] req_phy_start req_size = none
find_containing (e ∷ es) req_phy_start req_size =
    let rest = find_containing es req_phy_start req_size in
    if starts_inside e req_phy_start then some (e, ends_inside e req_phy_start req_size) else rest

check_range : ℕ → ℕ → Outcome (Unit {0})
check_range start size = do
  ensure (ltb 0 size)
  ensure (is_aligned start page_4k)
  ensure (is_aligned size page_4k)

pub get_entry_containing : List Entry → ℕ → ℕ → Outcome (Option (Entry × Bool))
unfolding check_range
get_entry_containing es req_phy_start req_size = do
  check_range req_phy_start req_size
  ok (find_containing es req_phy_start req_size)

-- The loop of `allocate`: the first free entry that is large enough is shrunk to the request and
-- mapped, and what is left of it becomes a free entry behind it, of size 0 where it fits exactly.
pub allocate_first : List Entry → ℕ → ℕ → Option (ℕ × List Entry)
allocate_first [] phy_start size = none
allocate_first (e ∷ es) phy_start size =
    let rest = allocate_first es phy_start size in
    if is_free e && leb size e.size
    then some (
      e.virtual_start,
      record e { size = size; physical_start = some phy_start }
          ∷ record {
            physical_start = none;
            virtual_start = e.virtual_start + size;
            size = e.size - size;
          }
          ∷ es,
    )
    else elim rest [ none ↦ none | some (addr, es') ↦ some (addr, e ∷ es') ]

-- The entry that the first call adds: all of the extra memory, free.
abbrev pub whole_space : Entry
whole_space = record {
  physical_start = none;
  virtual_start = kernel_extra_memory_base;
  size = kernel_extra_memory_size;
}

abbrev pub is_empty : List Entry → Bool
is_empty [] = true
is_empty (_ ∷ _) = false

-- `allocate` calls itself after it has added the first entry; with that the list is not empty, so
-- two rounds are enough.
pub allocate_rounds : ℕ → List Entry → ℕ → ℕ → Outcome (Result SpaceError ℕ × List Entry)
unfolding check_range get_entry_containing
allocate_rounds zero es phy_start size = undefined
allocate_rounds (suc n) es phy_start size =
    let again = allocate_rounds n (whole_space ∷ []) phy_start size in
    do
      check_range phy_start size
      found ← get_entry_containing es phy_start size
      elim found [
        | some _ ↦ ok (failure already_mapped, es)
        | none ↦ elim (allocate_first es phy_start size) [
          | some (addr, es') ↦ ok (success addr, es')
          | none ↦ if is_empty es then again else ok (failure out_of_space, es)
        ]
      ]

pub allocate : List Entry → ℕ → ℕ → Outcome (Result SpaceError ℕ × List Entry)
unfolding allocate_rounds
allocate = allocate_rounds 2

-- The list that a cursor stands in.
abbrev pub rewind : List Entry → List Entry → List Entry
rewind [] after = after
rewind (p ∷ before) after = rewind before (p ∷ after)

-- `if let Some(next_entry) = cursor.current()`: a free entry behind `current` is joined to it.
pub merge_next : Entry → List Entry → Entry × List Entry
merge_next current [] = (current, [])
merge_next current (next ∷ es) =
    if is_free next
    then (record current { size = current.size + next.size }, es)
    else (current, next ∷ es)

-- `if let Some(prev_entry) = cursor.current()`: a free entry before `current` grows by its size.
pub merge_prev : Entry → List Entry → List Entry
merge_prev current [] = []
merge_prev current (prev ∷ before) =
    if is_free prev then record prev { size = prev.size + current.size } ∷ before else prev ∷ before

-- `current` is taken out, joined with its neighbours, and then put back behind the previous entry,
-- whether that one has grown by it or not.
pub release : List Entry → Entry → List Entry → List Entry
unfolding merge_next merge_prev
release before e after =
    let (current, after') = merge_next (record e { physical_start = none }) after in
    rewind (merge_prev current before) (current ∷ after')

pub deallocate_from :
    List Entry → List Entry → ℕ → ℕ → Outcome (Result SpaceError (Unit {0}) × List Entry)
unfolding release
deallocate_from before [] req_virtual_start req_size =
    ok (failure entry_not_found, rewind before [])
deallocate_from before (e ∷ after) req_virtual_start req_size =
    let rest = deallocate_from (e ∷ before) after req_virtual_start req_size in
    if leb e.virtual_start req_virtual_start && ltb req_virtual_start (e.virtual_start + e.size)
    then if not (req_virtual_start == e.virtual_start) || not (req_size == e.size)
      then ok (failure not_full_range, rewind before (e ∷ after))
      else if is_free e
      then panic
      else ok (success tt, release before e after)
    else rest

pub deallocate : List Entry → ℕ → ℕ → Outcome (Result SpaceError (Unit {0}) × List Entry)
unfolding check_range
deallocate es req_virtual_start req_size = do
  check_range req_virtual_start req_size
  deallocate_from [] es req_virtual_start req_size
