-- ===== src/Fat/Examples.antt =====
-- Runs of the table of kernel/src/fs/fat.rs on small tables, and its theorems at them.
use emerald.Prelude.{
  ℕ, ◌≡◌, ◌≢◌, refl, true, false, Option, some, [], ◌∷◌, arith, ok, panic, failure,
}
use emerald.Fat.Entry.{fat12, next, reserved, from_u32, to_u32}
use emerald.Fat.Table.{
  Fat, read_fat_entry, write_fat_entry, find_free_cluster, find_free_from, next_cluster,
  mark_entry_dirty, check_entry, raw_entry, put_entry, number_of_fat_entries, unexpected_fat_entry,
}
use emerald.Fat.Chain.{write-read}
use emerald.Fat.FindFree.{FirstFree, find_free_cluster-FirstFree}

-- Entries 2 to 5 are: the chain 2, 3, then a free one, then the end of a chain.
abbrev small_fat : Fat
small_fat = record {
  buffer = 0xF8 ∷ 0xFF ∷ 0xFF ∷ 0x03 ∷ 0xF0 ∷ 0xFF ∷ 0x00 ∷ 0x80 ∷ 0xFF ∷ 0 ∷ [];
  sector_size = 4;
  fat_type = fat12;
  dirty = false;
  dirty_bitmap = 0 ∷ [];
}

read_next : read_fat_entry small_fat 2 ≡ ok (next 3)
unfolding read_fat_entry check_entry raw_entry from_u32
read_next = refl

find_free_small : find_free_cluster small_fat ≡ ok (some 4)
unfolding find_free_cluster find_free_from number_of_fat_entries read_fat_entry check_entry
    raw_entry from_u32
find_free_small = refl

follow_free : next_cluster small_fat 4 ≡ ok (failure unexpected_fat_entry)
unfolding next_cluster read_fat_entry check_entry raw_entry from_u32
follow_free = refl

abbrev written_fat : Fat
written_fat = record {
  buffer = 0xF8 ∷ 0xFF ∷ 0xFF ∷ 0x05 ∷ 0xF0 ∷ 0xFF ∷ 0x00 ∷ 0x80 ∷ 0xFF ∷ 0 ∷ [];
  sector_size = 4;
  fat_type = fat12;
  dirty = true;
  dirty_bitmap = 3 ∷ [];
}

-- The two bytes of entry 2 lie in two sectors.
write_small : write_fat_entry small_fat 2 (next 5) ≡ ok written_fat
unfolding write_fat_entry check_entry put_entry mark_entry_dirty to_u32
write_small = refl

write_reserved : write_fat_entry small_fat 2 reserved ≡ panic
unfolding write_fat_entry to_u32
write_reserved = refl

encode_next : to_u32 (next 0xFF6) fat12 ≡ some 0xFF6
unfolding to_u32
encode_next = refl

write-read_example :
    (read_fat_entry written_fat 2 ≡ ok (next 5))
    × ((j : ℕ) → j ≢ 2 → read_fat_entry written_fat j ≡ read_fat_entry small_fat j)
    × (true ≡ true)
write-read_example = write-read small_fat 2 (next 5) written_fat (ground arith) write_small

find_free_cluster-FirstFree_example :
    (r : Option ℕ) × (find_free_cluster small_fat ≡ ok r)
    × FirstFree small_fat 2 (number_of_fat_entries small_fat) r
find_free_cluster-FirstFree_example = find_free_cluster-FirstFree small_fat
