-- ===== src/Fat/FindFree.antt =====
-- `find_free_cluster` of kernel/src/fs/fat.rs: the search for a free entry.
use emerald.Prelude.{
  ℕ, zero, suc, ◌+◌, ◌-◌, ◌*◌, ◌/◌, ◌≤◌, ◌<◌, ◌≡◌, inl, inr, refl, ap, ◌∙◌, true, false, Option,
  none, some, List, ok, arith, length, ltb, lt→ltb, ℕ_discrete, Bool-cases,
}
use mathlib.Core.Path.{subst}
use emerald.Fat.Entry.{
  FatType, fat12, fat16, fat32, FatEntry, free, next, end_of_chain, bad, reserved, from_u32,
}
use emerald.Fat.Table.{
  Fat, fat_offset, span, check_entry, raw_entry, read_fat_entry, is_free, number_of_fat_entries,
  find_free_from, find_free_cluster,
}

-- The entry that a read of the table decodes.
abbrev pub entry_at : Fat → ℕ → FatEntry
entry_at f entry = from_u32 f.fat_type (raw_entry f.fat_type f.buffer entry)

entry-inside :
    (ty : FatType) (b : List ℕ) (entry : ℕ)
    → entry < elim ty [ fat12 ↦ length b * 2 / 3 | fat16 ↦ length b / 2 | fat32 ↦ length b / 4 ]
    → fat_offset ty entry + span ty < length b
entry-inside fat12 b entry h = omega arith
entry-inside fat16 b entry h = omega arith
entry-inside fat32 b entry h = omega arith

read-inside :
    (f : Fat) (entry : ℕ)
    → entry < number_of_fat_entries f
    → read_fat_entry f entry ≡ ok (entry_at f entry)
unfolding read_fat_entry check_entry number_of_fat_entries
read-inside f entry h = rw (lt→ltb _ _ (entry-inside f.fat_type f.buffer entry h)) refl

-- The first free entry from one number on and below another, or that there is none.
abbrev pub FirstFree : Fat → ℕ → ℕ → Option ℕ → Type 0
FirstFree f from stop none =
    (j : ℕ)
    → from ≤ j
    → j < stop
    → (e : FatEntry) × (read_fat_entry f j ≡ ok e) × (is_free e ≡ false)
FirstFree f from stop (some i) =
    (from ≤ i)
    × (i < stop)
    × (read_fat_entry f i ≡ ok free)
    × ((j : ℕ)
        → from ≤ j
        → j < i
        → (e : FatEntry) × (read_fat_entry f j ≡ ok e) × (is_free e ≡ false))

is_free-free : (e : FatEntry) → is_free e ≡ true → e ≡ free
is_free-free free h = refl
is_free-free (next n) h = cc h
is_free-free end_of_chain h = cc h
is_free-free bad h = cc h
is_free-free reserved h = cc h

FirstFree-cons :
    (f : Fat) (from stop : ℕ) (r : Option ℕ) (e : FatEntry)
    → read_fat_entry f from ≡ ok e
    → is_free e ≡ false
    → FirstFree f (from + 1) stop r
    → FirstFree f from stop r
FirstFree-cons f from stop none e read used rest = λ j low high. elim (ℕ_discrete j from) [
  | yes same ↦ (e, ap (read_fat_entry f) same ∙ read, used)
  | no other ↦ rest j (omega (arith, other)) high
]
FirstFree-cons f from stop (some i) e read used rest = (
  omega (arith, rest.0),
  rest.1,
  rest.2,
  λ j low high. elim (ℕ_discrete j from) [
    | yes same ↦ (e, ap (read_fat_entry f) same ∙ read, used)
    | no other ↦ rest.3 j (omega (arith, other)) high
  ],
)

find-found :
    (f : Fat) (n from : ℕ) (e : FatEntry)
    → read_fat_entry f from ≡ ok e
    → is_free e ≡ true
    → find_free_from f (suc n) from ≡ ok (some from)
unfolding find_free_from
find-found f n from e read found = rw (read, is_free-free e found) refl

find-used :
    (f : Fat) (n from : ℕ) (e : FatEntry)
    → read_fat_entry f from ≡ ok e
    → is_free e ≡ false
    → find_free_from f (suc n) from ≡ find_free_from f n (from + 1)
unfolding find_free_from
find-used f n from free read used = cc used
find-used f n from (next m) read used = rw read refl
find-used f n from end_of_chain read used = rw read refl
find-used f n from bad read used = rw read refl
find-used f n from reserved read used = rw read refl

from-FirstFree :
    (f : Fat) (n from : ℕ)
    → from + n ≤ number_of_fat_entries f
    → (r : Option ℕ) × (find_free_from f n from ≡ ok r) × FirstFree f from (from + n) r
unfolding find_free_from
from-FirstFree f zero from h = (none, refl, λ j low high. absurd (omega (arith, low, high)))
from-FirstFree f (suc n) from h =
    let read = read-inside f from (omega arith) in
    elim (Bool-cases (is_free (entry_at f from))) [
      | inl found ↦ (
        some from,
        find-found f n from _ read found,
        (
          omega arith,
          omega arith,
          read ∙ ap ok (is_free-free _ found),
          λ j low high. absurd (omega (arith, low, high)),
        ),
      )
      | inr used ↦
          let (r, e, first) = from-FirstFree f n (from + 1) (omega arith) in
          (
            r,
            find-used f n from _ read used ∙ e,
            FirstFree-cons f from (from + suc n) r _ read used
                (subst (λ stop. FirstFree f (from + 1) stop r) (omega arith) first),
          )
    ]

no_rounds : (n : ℕ) → ltb 2 n ≡ false → n - 2 ≡ 0
no_rounds n h = ground (arith, h)

few : (n j : ℕ) → ltb 2 n ≡ false → 2 ≤ j → j < n → ⊥
few n j h low high = ground (arith, h)

-- The search never panics and never reads past the table. It returns the lowest free entry from 2
-- on, or, where it returns none, no entry of the table from 2 on is free.
pub find_free_cluster-FirstFree :
    (f : Fat)
    → (r : Option ℕ) × (find_free_cluster f ≡ ok r) × FirstFree f 2 (number_of_fat_entries f) r
unfolding find_free_cluster find_free_from
find_free_cluster-FirstFree f = elim (Bool-cases (ltb 2 (number_of_fat_entries f))) [
  | inl some_entries ↦
      let (r, e, first) =
        from-FirstFree f (number_of_fat_entries f - 2) 2 (ground (arith, some_entries)) in
      (r, e, subst (λ stop. FirstFree f 2 stop r) (ground (arith, some_entries)) first)
  | inr no_entries ↦ (
    none,
    ap (λ n. find_free_from f n 2) (no_rounds (number_of_fat_entries f) no_entries),
    λ j low high. absurd (few _ j no_entries low high),
  )
]
