-- ===== src/Memory/PageTables.antt =====
-- kernel/src/memory_management/virtual_memory_mapper.rs: the indexes of an address in the page tables,
-- and the walk over the entries that are present. The memory gives the 512 entries of the table at a
-- physical address; `map` and `unmap` are not modelled.
mod Walk
mod Examples
use emerald.Prelude.{
  ℕ, zero, suc, ◌+◌, ◌-◌, ◌*◌, ◌/◌, ◌%◌, ◌^◌, Bool, true, false, List, [], ◌∷◌, ◌++◌, take, drop,
  ◌==◌, if◌then◌else◌,
}

abbrev pub kernel_l4_index : ℕ
kernel_l4_index = 0x1FF

abbrev pub kernel_l3_process_index_start : ℕ
kernel_l3_process_index_start = 0

abbrev pub kernel_l3_process_index_end : ℕ
kernel_l3_process_index_end = 0x1FE - 1

abbrev pub num_user_l4_indexes : ℕ
num_user_l4_indexes = kernel_l4_index

unfoldable pub get_l4 : ℕ → ℕ
get_l4 addr = addr / 2 ^ 39 % 512

unfoldable pub get_l3 : ℕ → ℕ
get_l3 addr = addr / 2 ^ 30 % 512

unfoldable pub get_l2 : ℕ → ℕ
get_l2 addr = addr / 2 ^ 21 % 512

unfoldable pub get_l1 : ℕ → ℕ
get_l1 addr = addr / 2 ^ 12 % 512

-- An entry with the table it stands in, so that it can be written.
pub record Slot : Type 0 where
  pub table : ℕ
  pub index : ℕ
  pub entry : ℕ

-- `PTE_PRESENT` and `PTE_HUGE_PAGE`, which is bit 7.
unfoldable pub is_present : Slot → Bool
is_present s = s.entry % 2 == 1

unfoldable pub is_huge : Slot → Bool
is_huge s = s.entry / 128 % 2 == 1

-- `entry & ADDR_MASK`: the bits from 12 to 31.
unfoldable pub from_entry : ℕ → ℕ
from_entry entry = entry % 2 ^ 32 - entry % 4096

unfoldable pub slots : ℕ → ℕ → List ℕ → List Slot
slots table index [] = []
slots table index (e ∷ es) =
    record { table = table; index = index; entry = e } ∷ slots table (index + 1) es

abbrev pub filter : (Slot → Bool) → List Slot → List Slot
filter p [] = []
filter p (s ∷ ss) = let rest = filter p ss in if p s then (s ∷ rest) else rest

abbrev pub flat_map : (Slot → List Slot) → List Slot → List Slot
flat_map f [] = []
flat_map f (s ∷ ss) = f s ++ flat_map f ss

module _ (tables : ℕ → List ℕ) where
  unfoldable pub as_page_directory_table_flat : Slot → List Slot
  unfolding slots from_entry
  as_page_directory_table_flat s = slots (from_entry s.entry) 0 (tables (from_entry s.entry))

  unfoldable pub handle_2mb_pages : Slot → List Slot
  unfolding is_huge is_present as_page_directory_table_flat
  handle_2mb_pages s =
      if is_huge s then (s ∷ []) else filter is_present (as_page_directory_table_flat s)

  -- The entries that `f` is called with, in order. The ends of the ranges are included.
  unfoldable pub do_for_ranges_entries : ℕ → ℕ → ℕ → ℕ → ℕ → List Slot
  unfolding handle_2mb_pages
  do_for_ranges_entries page_map_l4 l4_start l4_end l3_start l3_end =
      let l3s =
        flat_map as_page_directory_table_flat (
          take (l4_end - l4_start + 1)
            (drop l4_start (slots page_map_l4 0 (tables page_map_l4)))) in
      let l2s =
        flat_map as_page_directory_table_flat
          (filter is_present (take (l3_end - l3_start + 1) (drop l3_start l3s))) in
      flat_map handle_2mb_pages (filter is_present l2s)

  unfoldable pub do_for_every_user_entry : ℕ → List Slot
  unfolding do_for_ranges_entries
  do_for_every_user_entry page_map_l4 =
      do_for_ranges_entries page_map_l4 0 (num_user_l4_indexes - 1) 0 0x1FF

  unfoldable pub do_for_kernel_process_entry : ℕ → List Slot
  unfolding do_for_ranges_entries
  do_for_kernel_process_entry page_map_l4 =
      do_for_ranges_entries page_map_l4 kernel_l4_index kernel_l4_index
        kernel_l3_process_index_start kernel_l3_process_index_end
