-- ===== src/Fat/Chain.antt =====
-- Writes to the table of kernel/src/fs/fat.rs, and the functions that walk it.
use emerald.Prelude.{
  ℕ, ◌+◌, ◌%◌, ◌<◌, ◌≡◌, ◌≢◌, inl, inr, refl, sym, ap, ◌∙◌, true, some, List, Outcome, ok, panic,
  undefined, ◌>>◌, arith, All, length, length-set, ltb, ltb→lt, lt→ltb, ◌==◌, if◌then◌else◌,
  Option-cases, Bool-cases, ==_iff, ==-self, ==_of_ne, ap₂,
}
use emerald.Fat.Entry.{
  FatType, fat12, fat16, fat32, FatEntry, from_u32, to_u32, from_u32-to_u32, to_u32-lt,
  last_cluster,
}
use emerald.Fat.Table.{
  Fat, fat_offset, span, check_entry, raw_entry, read_fat_entry, put_entry, write_fat_entry,
  mark_entry_dirty,
}
use emerald.Fat.Roundtrip.{IsByte, raw-put12_self, raw-put12_other, raw-put16, raw-put32}

raw-put_entry :
    (ty : FatType) (b : List ℕ) (entry n j : ℕ)
    → All IsByte b
    → fat_offset ty entry + span ty < length b
    → n < last_cluster ty + 10
    → raw_entry ty (put_entry ty b entry n) j ≡ (if j == entry then n else raw_entry ty b j)
raw-put_entry fat12 b entry n j bytes h lt = elim (Bool-cases (j == entry)) [
  | inl same ↦ rw same (
      ap (raw_entry fat12 (put_entry fat12 b entry n)) ((==_iff j entry).0 same)
      ∙ raw-put12_self b entry n bytes h lt)
  | inr other ↦ rw other (raw-put12_other b entry n bytes j h (λ e. cc ((==_iff j entry).1 e)) lt)
]
raw-put_entry fat16 b entry n j bytes h lt = raw-put16 b entry n bytes j h lt
raw-put_entry fat32 b entry n j bytes h lt = raw-put32 b entry n bytes j h (omega arith)

mark_entry_dirty-keeps :
    (f : Fat) (offset : ℕ) (f' : Fat)
    → mark_entry_dirty f offset ≡ ok f'
    → (f'.buffer ≡ f.buffer) × (f'.fat_type ≡ f.fat_type) × (f'.dirty ≡ true)
unfolding mark_entry_dirty
mark_entry_dirty-keeps f offset f' e = ground (arith, e)

-- A write that returns has put the number of the entry in its place.
pub record Written (f : Fat) (entry : ℕ) (e : FatEntry) (f' : Fat) : Type 0 where
  pub number : ℕ
  pub encoded : to_u32 e f.fat_type ≡ some number
  pub inside : fat_offset f.fat_type entry + span f.fat_type < length f.buffer
  pub stored : f'.buffer ≡ put_entry f.fat_type f.buffer entry number
  pub same_type : f'.fat_type ≡ f.fat_type
  pub marked : f'.dirty ≡ true

write-Written :
    (f : Fat) (entry : ℕ) (e : FatEntry) (f' : Fat)
    → write_fat_entry f entry e ≡ ok f'
    → Written f entry e f'
unfolding write_fat_entry check_entry
write-Written f entry e f' h = elim (Option-cases (to_u32 e f.fat_type)) [
  | inl no_number ↦ cc (rw (no_number, write_fat_entry) at h)
  | inr (n, encoded) ↦
      elim (Bool-cases (ltb (fat_offset f.fat_type entry + span f.fat_type) (length f.buffer))) [
        | inl fits ↦
            let marked : mark_entry_dirty
                  (record f { buffer = put_entry f.fat_type f.buffer entry n })
                  (fat_offset f.fat_type entry)
                ≡ ok f' =
              ground (arith, h, encoded, fits) in
            let (a, b, c) = mark_entry_dirty-keeps _ _ f' marked in
            record {
              number = n;
              encoded = encoded;
              inside = ltb→lt _ _ fits;
              stored = a;
              same_type = b;
              marked = c;
            }
        | inr out ↦ absurd (ground (arith, h, encoded, out))
      ]
]

length-put_entry :
    (ty : FatType) (b : List ℕ) (entry n : ℕ) → length (put_entry ty b entry n) ≡ length b
unfolding put_entry
length-put_entry fat12 b entry n = elim (Bool-cases (entry % 2 == 1)) [
  | inl odd ↦ rw odd (simp length-set)
  | inr even ↦ rw even (simp length-set)
]
length-put_entry fat16 b entry n = simp length-set
length-put_entry fat32 b entry n = simp length-set

-- Reading looks at the type, the length of the buffer and the number of the entry.
abbrev read_at : FatType → ℕ → ℕ → ℕ → Outcome FatEntry
read_at ty len raw entry =
    (if ltb (fat_offset ty entry + span ty) len
      then ok tt
      else if ltb (fat_offset ty entry) len
      then elim ty [ fat12 ↦ panic | _ ↦ undefined ]
      else panic)
    >> ok (from_u32 ty raw)

read-eq :
    (f : Fat) (entry : ℕ)
    → read_fat_entry f entry
      ≡ read_at f.fat_type (length f.buffer) (raw_entry f.fat_type f.buffer entry) entry
unfolding read_fat_entry check_entry
read-eq f entry = refl

module _ (f : Fat) (entry : ℕ) (e : FatEntry) (f' : Fat) (bytes : All IsByte f.buffer)
    (w : Written f entry e f') where
  raw-Written :
      (j : ℕ)
      → raw_entry f'.fat_type f'.buffer j
        ≡ (if j == entry then w.number else raw_entry f.fat_type f.buffer j)
  raw-Written j =
      ap₂ (λ ty b. raw_entry ty b j) w.same_type w.stored
      ∙ raw-put_entry f.fat_type f.buffer entry w.number j bytes w.inside
          (to_u32-lt f.fat_type e w.number w.encoded)

  length-Written : length f'.buffer ≡ length f.buffer
  length-Written = ap length w.stored ∙ length-put_entry f.fat_type f.buffer entry w.number

  read-Written :
      (j : ℕ)
      → read_fat_entry f' j
        ≡ read_at f.fat_type
            (length f.buffer)
            (if j == entry then w.number else raw_entry f.fat_type f.buffer j)
            j
  read-Written j =
      read-eq f' j ∙ λ i. read_at (w.same_type i) (length-Written i) (raw-Written j i) j

-- Reading an entry after a write that returned gives what was written; every other entry reads as
-- before; and the table is marked dirty.
pub write-read :
    (f : Fat) (entry : ℕ) (e : FatEntry) (f' : Fat)
    → All IsByte f.buffer
    → write_fat_entry f entry e ≡ ok f'
    → (read_fat_entry f' entry ≡ ok e)
      × ((j : ℕ) → j ≢ entry → read_fat_entry f' j ≡ read_fat_entry f j)
      × (f'.dirty ≡ true)
write-read f entry e f' bytes h =
    let w = write-Written f entry e f' h in
    (
      read-Written f entry e f' bytes w entry
          ∙ rw (==-self entry, lt→ltb _ _ w.inside)
              (ap ok (from_u32-to_u32 f.fat_type e w.number w.encoded)),
      λ j ne. read-Written f entry e f' bytes w j ∙ rw (==_of_ne j entry ne) (sym (read-eq f j)),
      w.marked,
    )
