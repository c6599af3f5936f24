-- ===== src/Fat/Table.antt =====
-- `Fat` of kernel/src/fs/fat.rs: the entries of the table, and the sectors of it that are dirty.
use emerald.Prelude.{
  ℕ, zero, suc, ◌+◌, ◌-◌, ◌*◌, ◌/◌, ◌%◌, ◌^◌, Bool, true, false, Option, none, some, List, map,
  Outcome, ok, panic, undefined, ◌>>=◌, ◌>>◌, Result, success, failure, length, get_or, set, ltb,
  ◌==◌, if◌then◌else◌,
}
use emerald.Fat.Entry.{
  FatType, fat12, fat16, fat32, FatEntry, free, next, end_of_chain, bad, reserved, from_u32, to_u32,
}

pub record Fat : Type 0 where
  pub buffer : List ℕ
  pub sector_size : ℕ
  pub fat_type : FatType
  pub dirty : Bool
  -- One bit for each sector, in words of 64 bits.
  pub dirty_bitmap : List ℕ

-- Entries are below 2 ^ 28, so the products fit 32 bits.
abbrev pub fat_offset : FatType → ℕ → ℕ
fat_offset fat12 entry = entry * 3 / 2
fat_offset fat16 entry = entry * 2
fat_offset fat32 entry = entry * 4

-- The bytes past the first one that the access touches.
abbrev pub span : FatType → ℕ
span fat12 = 1
span fat16 = 1
span fat32 = 3

-- The first byte is asserted to lie in the buffer. Past it, FAT12 indexes the buffer, which panics,
-- and the other types read or write through a pointer, which is undefined.
unfoldable pub check_entry : Fat → ℕ → Outcome (Unit {0})
check_entry f entry =
    if ltb (fat_offset f.fat_type entry + span f.fat_type) (length f.buffer)
    then ok tt
    else if ltb (fat_offset f.fat_type entry) (length f.buffer)
    then elim (f.fat_type) [ fat12 ↦ panic | _ ↦ undefined ]
    else panic

abbrev pub byte : List ℕ → ℕ → ℕ
byte b i = get_or b i 0

-- The number that stands for an entry.
unfoldable pub raw_entry : FatType → List ℕ → ℕ → ℕ
raw_entry fat12 b entry =
    if entry % 2 == 1
    then byte b (entry * 3 / 2 + 1) * 16 + byte b (entry * 3 / 2) / 16
    else byte b (entry * 3 / 2 + 1) % 16 * 256 + byte b (entry * 3 / 2)
raw_entry fat16 b entry = byte b (entry * 2) + byte b (entry * 2 + 1) * 256
raw_entry fat32 b entry =
    (byte b (entry * 4)
      + byte b (entry * 4 + 1) * 256
      + byte b (entry * 4 + 2) * 256 * 256
      + byte b (entry * 4 + 3) * 256 * 256 * 256)
    % 2 ^ 28

unfoldable pub read_fat_entry : Fat → ℕ → Outcome FatEntry
read_fat_entry f entry = do
  check_entry f entry
  ok (from_u32 f.fat_type (raw_entry f.fat_type f.buffer entry))

-- The buffer with an entry replaced.
unfoldable pub put_entry : FatType → List ℕ → ℕ → ℕ → List ℕ
put_entry fat12 b entry n =
    let at = entry * 3 / 2 in
    if entry % 2 == 1
    then set (set b at (byte b at % 16 + n * 16 % 256)) (at + 1) (n / 16 % 256)
    else set (set b at (n % 256)) (at + 1) (byte b (at + 1) - byte b (at + 1) % 16 + n / 256 % 256)
put_entry fat16 b entry n = set (set b (entry * 2) (n % 256)) (entry * 2 + 1) (n / 256 % 256)
put_entry fat32 b entry n =
    set
      (set (set (set b (entry * 4) (n % 256)) (entry * 4 + 1) (n / 256 % 256)) (entry * 4 + 2)
        (n / (256 * 256) % 256))
      (entry * 4 + 3) (n / (256 * 256 * 256) % 256)

-- `word |= 1 << bit`
abbrev pub set_bit : ℕ → ℕ → ℕ
set_bit word bit = if word / 2 ^ bit % 2 == 1 then word else word + 2 ^ bit

unfoldable pub mark_sector_dirty : Fat → ℕ → Outcome Fat
mark_sector_dirty f sector =
    if ltb (sector / 64) (length f.dirty_bitmap)
    then ok (record f {
      dirty_bitmap =
          set f.dirty_bitmap (sector / 64)
            (set_bit (get_or f.dirty_bitmap (sector / 64) 0) (sector % 64));
    })
    else panic

-- The division by a sector size of 0 panics.
unfoldable pub sector_of : Fat → ℕ → Outcome ℕ
sector_of f offset = if f.sector_size == 0 then panic else ok (offset / f.sector_size)

unfoldable pub mark_entry_dirty : Fat → ℕ → Outcome Fat
unfolding mark_sector_dirty sector_of
mark_entry_dirty f offset = do
  sector ← sector_of f offset
  f₁ ← mark_sector_dirty f sector
  f₂ ← elim (f.fat_type) [
    | fat12 ↦ sector_of f (offset + 1) >>= λ second. mark_sector_dirty f₁ second
    | _ ↦ ok f₁
  ]
  ok (record f₂ { dirty = true })

unfoldable pub write_fat_entry : Fat → ℕ → FatEntry → Outcome Fat
write_fat_entry f entry e = elim (to_u32 e f.fat_type) [
  | none ↦ panic
  | some n ↦ (do
    check_entry f entry
    mark_entry_dirty (record f { buffer = put_entry f.fat_type f.buffer entry n })
        (fat_offset f.fat_type entry))
]

unfoldable pub clear_dirty : Fat → Fat
clear_dirty f =
    if f.dirty then record f { dirty = false; dirty_bitmap = map (λ _. 0) f.dirty_bitmap } else f

unfoldable pub number_of_fat_entries : Fat → ℕ
number_of_fat_entries f = elim (f.fat_type) [
  | fat12 ↦ length f.buffer * 2 / 3
  | fat16 ↦ length f.buffer / 2
  | fat32 ↦ length f.buffer / 4
]

abbrev pub is_free : FatEntry → Bool
is_free free = true
is_free _ = false

-- `(entry..entry + n).find(..)`
unfoldable pub find_free_from : Fat → ℕ → ℕ → Outcome (Option ℕ)
find_free_from f zero entry = ok none
find_free_from f (suc n) entry = do
  e ← read_fat_entry f entry
  elim (is_free e) [ true ↦ ok (some entry) | false ↦ find_free_from f n (entry + 1) ]

unfoldable pub find_free_cluster : Fat → Outcome (Option ℕ)
find_free_cluster f = find_free_from f (number_of_fat_entries f - 2) 2

-- `FatError::UnexpectedFatEntry`
pub data FatError : Type 0 where
  unexpected_fat_entry : FatError

unfoldable pub next_cluster : Fat → ℕ → Outcome (Result FatError (Option ℕ))
next_cluster f cluster = do
  e ← read_fat_entry f cluster
  elim e [
    | next n ↦ ok (success (some n))
    | end_of_chain ↦ ok (success none)
    | bad ↦ ok (failure unexpected_fat_entry)
    | reserved ↦ ok (failure unexpected_fat_entry)
    | free ↦ ok (failure unexpected_fat_entry)
  ]
