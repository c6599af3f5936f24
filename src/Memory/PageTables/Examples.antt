-- ===== src/Memory/PageTables/Examples.antt =====
-- Page tables of kernel/src/memory_management/virtual_memory_mapper.rs, and what the walk misses.
use emerald.Prelude.{
  ℕ, ◌≡◌, refl, ◌∙◌, List, [], ◌∷◌, length, length-replicate, length-set, set, replicate, ◌==◌,
  if◌then◌else◌,
}
use emerald.Memory.PageTables.{do_for_every_user_entry, do_for_ranges_entries}
use emerald.Memory.PageTables.Walk.{do_for_every_user_entry-do_for_ranges_entries}

-- The stack of a program: its page is mapped by the last entry of the user in the top table, 510.
abbrev below_last : ℕ → ℕ
below_last a =
    if a == 0x1000
    then 0x2007
    else if a == 0x2000
    then 0x3007
    else if a == 0x3000
    then 0x4007
    else if a == 0x4000
    then 0x5007
    else 0

unfoldable tables : ℕ → List ℕ
tables a = set (replicate 512 0) (if a == 0x1000 then 510 else 511) (below_last a)

tables_full : (a : ℕ) → length (tables a) ≡ 512
unfolding tables
tables_full a =
    length-set (replicate 512 0) (if a == 0x1000 then 510 else 511) (below_last a)
    ∙ length-replicate {A = ℕ} 512 0

stack_is_missed : do_for_every_user_entry tables 0x1000 ≡ []
unfolding do_for_every_user_entry tables
stack_is_missed = refl

stack_is_mapped :
    do_for_ranges_entries tables 0x1000 510 510 0 0x1FF
    ≡ record { table = 0x4000; index = 511; entry = 0x5007 } ∷ []
unfolding do_for_ranges_entries tables
stack_is_mapped = refl

do_for_every_user_entry-do_for_ranges_entries_example :
    do_for_every_user_entry tables 0x1000 ≡ do_for_ranges_entries tables 0x1000 0 0 0 0x1FF
do_for_every_user_entry-do_for_ranges_entries_example =
    do_for_every_user_entry-do_for_ranges_entries tables 0x1000 tables_full
