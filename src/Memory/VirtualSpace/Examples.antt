-- ===== src/Memory/VirtualSpace/Examples.antt =====
-- Calls of kernel/src/memory_management/virtual_space.rs and memory_layout.rs on small lists, and the
-- theorems about them at those.
use emerald.Prelude.{
  ℕ, ◌+◌, ◌-◌, ◌%◌, ◌≤◌, ◌<◌, ◌≡◌, refl, false, none, some, List, [], ◌∷◌, arith, ok, Result,
  success, failure, ◌>>=◌, inl,
}
use emerald.Memory.Layout.{
  page_4k, align_range, align_range_covers, is_aligned, kernel_extra_memory_base,
  kernel_extra_memory_size, kernel_last_possible_addr,
}
use emerald.Memory.VirtualSpace.{
  SpaceError, not_full_range, Entry, is_free, find_containing, starts_inside, allocate_first,
  allocate, deallocate_from, deallocate,
}
use emerald.Memory.VirtualSpace.Tiling.{Tiles, mappings, Apart, Inserts, IsSpace}
use emerald.Memory.VirtualSpace.Allocate.{Allocated, allocate_total, allocate-IsSpace}
use emerald.Memory.VirtualSpace.Deallocate.{entry_before, deallocate-Inserts}
use emerald.Memory.VirtualSpace.Merge.{deallocate-Tiles}
use emerald.Memory.VirtualSpace.Reach.{allocated, start, next, Reach-Apart}

abbrev base : ℕ
base = kernel_extra_memory_base

abbrev unused : ℕ → ℕ → Entry
unused at n = record { physical_start = none; virtual_start = at; size = n }

abbrev live : ℕ → ℕ → ℕ → Entry
live phy at n = record { physical_start = some phy; virtual_start = at; size = n }

abbrev one_page : List Entry
one_page = live 0x8000 base 0x1000 ∷ unused (base + 0x1000) (kernel_extra_memory_size - 0x1000) ∷ []

abbrev two_pages : List Entry
two_pages =
    live 0x8000 base 0x1000
    ∷ live 0xA000 (base + 0x1000) 0x1000
    ∷ unused (base + 0x2000) (kernel_extra_memory_size - 0x2000)
    ∷ []

-- One free page, one mapped page and a mapped page behind them.
abbrev gap : List Entry
gap =
    unused base 0x1000
    ∷ live 0xA000 (base + 0x1000) 0x1000
    ∷ live 0xB000 (base + 0x2000) 0x1000
    ∷ unused (base + 0x3000) (kernel_extra_memory_size - 0x3000)
    ∷ []

-- `gap` after the page at `base + 0x1000` is freed: that page stands in two entries.
abbrev broken : List Entry
broken =
    unused base 0x2000
    ∷ unused (base + 0x1000) 0x1000
    ∷ live 0xB000 (base + 0x2000) 0x1000
    ∷ unused (base + 0x3000) (kernel_extra_memory_size - 0x3000)
    ∷ []

first_call : allocate [] 0x8000 0x1000 ≡ ok (success base, one_page)
unfolding allocate is_aligned find_containing allocate_first starts_inside
first_call = refl

second_call : allocate one_page 0xA000 0x1000 ≡ ok (success (base + 0x1000), two_pages)
unfolding allocate is_aligned find_containing allocate_first starts_inside
second_call = refl

free_gap : deallocate gap (base + 0x1000) 0x1000 ≡ ok (success tt, broken)
unfolding deallocate deallocate_from is_aligned
free_gap = refl

-- Two further calls are then given ranges that overlap: the second lies inside the first.
overlapping :
    (allocate broken 0x10000 0x2000 >>= λ r. allocate r.1 0x20000 0x1000)
    ≡ ok (
      success (base + 0x1000),
      live 0x10000 base 0x2000
          ∷ unused (base + 0x2000) 0
          ∷ live 0x20000 (base + 0x1000) 0x1000
          ∷ unused (base + 0x2000) 0
          ∷ live 0xB000 (base + 0x2000) 0x1000
          ∷ unused (base + 0x3000) (kernel_extra_memory_size - 0x3000)
          ∷ [],
    )
unfolding allocate is_aligned find_containing allocate_first starts_inside
overlapping = refl

align_range_covers_example :
    (s aligned_size offset : ℕ) × (align_range 0x8123 0x1000 page_4k ≡ ok (s, aligned_size, offset))
    × (s % page_4k ≡ 0)
    × (aligned_size % page_4k ≡ 0)
    × (0 < aligned_size)
    × (s + offset ≡ 0x8123)
    × (offset < page_4k)
    × (0x9123 ≤ s + aligned_size)
    × (s + aligned_size < 0xA123)
align_range_covers_example = align_range_covers 0x8123 0x1000 (omega arith) (omega arith)

allocate_total_example :
    (r : Result SpaceError ℕ) × (es' : List Entry) × (allocate two_pages 0xB000 0x3000
      ≡ ok (r, es'))
    × Allocated two_pages 0xB000 0x3000 r es'
allocate_total_example = allocate_total 0xB000 0x3000 (omega arith) refl refl two_pages

allocate-IsSpace_example : IsSpace two_pages
allocate-IsSpace_example =
    allocate-IsSpace one_page 0xA000 0x1000 (success (base + 0x1000)) two_pages
      (allocate-IsSpace [] 0x8000 0x1000 (success base) one_page (inl refl) first_call) second_call

free_first :
    deallocate two_pages base 0x1000
    ≡ ok (
      success tt,
      unused base 0x1000
          ∷ live 0xA000 (base + 0x1000) 0x1000
          ∷ unused (base + 0x2000) (kernel_extra_memory_size - 0x2000)
          ∷ [],
    )
unfolding deallocate deallocate_from is_aligned
free_first = refl

deallocate-Inserts_example :
    (phy : ℕ) × Inserts
      (record { physical = phy; virtual = base + 0x1000; bytes = 0x1000 })
      (mappings broken)
      (mappings gap)
deallocate-Inserts_example = deallocate-Inserts gap (base + 0x1000) 0x1000 broken free_gap

half_page : deallocate two_pages base 0x2000 ≡ ok (failure not_full_range, two_pages)
unfolding deallocate deallocate_from is_aligned
half_page = refl

nothing_before : (p : Entry) → entry_before none two_pages base ≡ some p → is_free p ≡ false
unfolding entry_before
nothing_before p h = cc

deallocate-Tiles_example :
    Tiles base
      (unused base 0x1000
        ∷ live 0xA000 (base + 0x1000) 0x1000
        ∷ unused (base + 0x2000) (kernel_extra_memory_size - 0x2000)
        ∷ [])
      kernel_last_possible_addr
deallocate-Tiles_example =
    deallocate-Tiles two_pages base 0x1000 _ base kernel_last_possible_addr (omega arith) free_first
      nothing_before

gap_before : entry_before none gap (base + 0x1000) ≡ some (unused base 0x1000)
unfolding entry_before
gap_before = refl

Reach-Apart_example : Apart base (mappings two_pages) kernel_last_possible_addr
Reach-Apart_example =
    Reach-Apart
      (next (next start (allocated 0x8000 0x1000 first_call)) (allocated 0xA000 0x1000 second_call))
