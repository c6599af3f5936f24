-- ===== src/Memory/PageTables/Walk.antt =====
-- What the walk over the page tables in kernel/src/memory_management/virtual_memory_mapper.rs visits.
use emerald.Prelude.{
  ℕ, zero, suc, ◌+◌, ◌*◌, ◌%◌, ◌^◌, ◌<◌, ◌≡◌, refl, sym, ap, ◌∙◌, List, [], ◌∷◌, ◌++◌, take, length,
  arith,
}
use emerald.Memory.PageTables.{
  is_present, handle_2mb_pages, filter, get_l4, get_l3, get_l2, get_l1, Slot, slots, flat_map,
  as_page_directory_table_flat, from_entry, do_for_ranges_entries, do_for_every_user_entry,
}

take-append : {A : Type 0} (n : ℕ) (xs ys : List A) → length xs ≡ n → take n (xs ++ ys) ≡ xs
take-append zero [] ys e = refl
take-append zero (x ∷ xs) ys e = absurd (omega (arith, e))
take-append (suc n) [] ys e = absurd (omega (arith, e))
take-append (suc n) (x ∷ xs) ys e = ap (λ zs. x ∷ zs) (take-append n xs ys (omega (arith, e)))

length-slots : (table index : ℕ) (es : List ℕ) → length (slots table index es) ≡ length es
unfolding slots
length-slots table index [] = refl
length-slots table index (e ∷ es) = ap suc (length-slots table (index + 1) es)

-- The first 512 entries behind the entries of a table are those behind its first entry.
take-flat_map :
    (tables : ℕ → List ℕ) (n : ℕ) (ss : List Slot)
    → ((a : ℕ) → length (tables a) ≡ 512)
    → 0 < n
    → 0 < length ss
    → take 512 (flat_map (as_page_directory_table_flat tables) (take n ss))
      ≡ take 512 (flat_map (as_page_directory_table_flat tables) (take 1 ss))
unfolding as_page_directory_table_flat
take-flat_map tables zero ss full pos more = absurd (omega arith)
take-flat_map tables (suc n) [] full pos more = absurd (omega (arith, more))
take-flat_map tables (suc n) (s ∷ ss) full pos more =
    take-append 512 (as_page_directory_table_flat tables s) _ (whole s)
    ∙ sym (take-append 512 (as_page_directory_table_flat tables s) _ (whole s))
  where
    whole : (t : Slot) → length (as_page_directory_table_flat tables t) ≡ 512
    whole t =
        length-slots (from_entry t.entry) 0 (tables (from_entry t.entry))
        ∙ full (from_entry t.entry)

-- Where every table has 512 entries, the walk over the entries of the user visits those below the
-- first entry of the top table, and no others: the range of 512 is taken of the tables of the third
-- level in a row, not of each.
pub do_for_every_user_entry-do_for_ranges_entries :
    (tables : ℕ → List ℕ) (page_map_l4 : ℕ)
    → ((a : ℕ) → length (tables a) ≡ 512)
    → do_for_every_user_entry tables page_map_l4
      ≡ do_for_ranges_entries tables page_map_l4 0 0 0 0x1FF
unfolding do_for_every_user_entry do_for_ranges_entries
do_for_every_user_entry-do_for_ranges_entries tables page_map_l4 full =
    ap
      (λ l3s. flat_map (handle_2mb_pages tables) (
        filter is_present (flat_map (as_page_directory_table_flat tables) (filter is_present l3s))))
      (take-flat_map tables 511 (slots page_map_l4 0 (tables page_map_l4)) full (omega arith)
        (omega (arith, length-slots page_map_l4 0 (tables page_map_l4), full page_map_l4)))

-- Below 2 ^ 48, the four indexes and the offset in the page give the address back.
pub indexes_lem :
    (addr : ℕ)
    → addr < 2 ^ 48
    → get_l4 addr * 2 ^ 39
        + get_l3 addr * 2 ^ 30
        + get_l2 addr * 2 ^ 21
        + get_l1 addr * 2 ^ 12
        + addr % 4096
      ≡ addr
unfolding get_l4 get_l3 get_l2 get_l1
indexes_lem addr lt = omega arith
