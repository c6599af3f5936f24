-- ===== src/Memory/VirtualSpace/Deallocate.antt =====
-- `deallocate` of kernel/src/memory_management/virtual_space.rs: what each of its outcomes means for
-- the live mappings.
use emerald.Prelude.{
  ℕ, ◌+◌, ◌≡◌, inl, inr, refl, sym, ap, ap₂, ◌∙◌, Bool, true, false, ◌&&◌, Option, none, some, List,
  [], ◌∷◌, ◌++◌, arith, ok, success, failure, leb, ltb, if◌then◌else◌, Bool-cases,
}
use emerald.Memory.VirtualSpace.{
  SpaceError, Entry, is_free, rewind, merge_next, merge_prev, release, deallocate_from, deallocate,
}
use emerald.Memory.VirtualSpace.Tiling.{
  mapping_at, mappings, mappings-append, mapping_at-free, Inserts,
}

abbrev pub holds_addr : Entry → ℕ → Bool
holds_addr e addr = leb e.virtual_start addr && ltb addr (e.virtual_start + e.size)

unfoldable pub head : List Entry → Option Entry
head [] = none
head (p ∷ _) = some p

-- The entry in front of the first one that holds the address.
unfoldable pub entry_before : Option Entry → List Entry → ℕ → Option Entry
entry_before prev [] addr = none
entry_before prev (e ∷ es) addr =
    let rest = entry_before (some e) es addr in if holds_addr e addr then prev else rest

-- What `deallocate` does where it succeeds.
pub record Frees (es : List Entry) (addr size : ℕ) (prev : Option Entry) (es' : List Entry)
    : Type 0 where
  pub before : List Entry
  pub entry : Entry
  pub after : List Entry
  pub old : es ≡ rewind before (entry ∷ after)
  pub new : es' ≡ release before entry after
  pub here : entry.virtual_start ≡ addr
  pub whole : entry.size ≡ size
  pub mapped : is_free entry ≡ false
  pub behind : prev ≡ head before

deallocate_from-Frees :
    (before es : List Entry) (addr size : ℕ) (es' : List Entry)
    → deallocate_from before es addr size ≡ ok (success tt, es')
    → Frees (rewind before es) addr size (entry_before (head before) es addr) es'
unfolding deallocate_from entry_before head
deallocate_from-Frees before [] addr size es' e = cc
deallocate_from-Frees before (x ∷ es) addr size es' e = elim (Bool-cases (holds_addr x addr)) [
  | inl there ↦ record {
    before = before;
    entry = x;
    after = es;
    old = refl;
    new = ground (arith, e, there);
    here = ground (arith, e, there);
    whole = ground (arith, e, there);
    mapped = ground (arith, e, there);
    behind = ground (arith, there);
  }
  | inr past ↦
      rw past (deallocate_from-Frees (x ∷ before) es addr size es' (ground (arith, e, past)))
]

pub rewind-append : (before xs ys : List Entry) → rewind before (xs ++ ys) ≡ rewind before xs ++ ys
rewind-append [] xs ys = refl
rewind-append (p ∷ before) xs ys = rewind-append before (p ∷ xs) ys

mappings-rewind :
    (before xs : List Entry)
    → mappings (rewind before xs) ≡ mappings (rewind before []) ++ mappings xs
mappings-rewind before xs =
    ap mappings (rewind-append before [] xs) ∙ mappings-append (rewind before []) xs

abbrev pub freed : ℕ → ℕ → Entry
freed start n = record { physical_start = none; virtual_start = start; size = n }

-- Joining the next entry, where it is free, changes no mapping.
mappings-merge_next :
    (start n : ℕ) (after : List Entry)
    → let (current, after') = merge_next (freed start n) after in
      mappings (current ∷ after') ≡ mappings after
unfolding merge_next
mappings-merge_next start n [] = refl
mappings-merge_next start n (x ∷ after) = elim (Bool-cases (is_free x)) [
  | inl unused ↦ rw unused (
      sym (
        ap (λ l. l ++ mappings after)
          (mapping_at-free x.physical_start x.virtual_start x.size unused)))
  | inr live ↦ rw live
]

mappings-merge_prev :
    (current : Entry) (before xs : List Entry)
    → mappings (rewind (merge_prev current before) xs) ≡ mappings (rewind before xs)
unfolding merge_prev
mappings-merge_prev current [] xs = refl
mappings-merge_prev current (p ∷ before) xs = elim (Bool-cases (is_free p)) [
  | inl unused ↦ rw unused (
      mappings-rewind before (record p { size = p.size + current.size } ∷ xs)
      ∙ ap (λ l. mappings (rewind before []) ++ (l ++ mappings xs))
          (mapping_at-free p.physical_start p.virtual_start (p.size + current.size) unused
            ∙ sym (mapping_at-free p.physical_start p.virtual_start p.size unused))
      ∙ sym (mappings-rewind before (p ∷ xs)))
  | inr live ↦ rw live
]

mappings-release :
    (before : List Entry) (e : Entry) (after : List Entry)
    → mappings (release before e after) ≡ mappings (rewind before []) ++ mappings after
unfolding release
mappings-release before e after =
    let m = merge_next (freed e.virtual_start e.size) after in
    mappings-merge_prev m.0 before (m.0 ∷ m.1)
    ∙ mappings-rewind before (m.0 ∷ m.1)
    ∙ ap (λ l. mappings (rewind before []) ++ l) (mappings-merge_next e.virtual_start e.size after)

mapped_entry :
    (o : Option ℕ) (v n : ℕ)
    → (elim o [ none ↦ true | some _ ↦ false ]) ≡ false
    → (p : ℕ) × (mapping_at o v n ≡ record { physical = p; virtual = v; bytes = n } ∷ [])
mapped_entry none v n h = cc
mapped_entry (some p) v n h = (p, refl)

pub deallocate-Frees :
    (es : List Entry) (addr size : ℕ) (es' : List Entry)
    → deallocate es addr size ≡ ok (success tt, es')
    → Frees es addr size (entry_before none es addr) es'
unfolding deallocate head
deallocate-Frees es addr size es' e = deallocate_from-Frees [] es addr size es' (ground (arith, e))

-- Where `deallocate` succeeds, the live mapping that starts at the address and has the size is gone,
-- and every other one is as it was.
pub deallocate-Inserts :
    (es : List Entry) (addr size : ℕ) (es' : List Entry)
    → deallocate es addr size ≡ ok (success tt, es')
    → (phy : ℕ) × Inserts
        (record { physical = phy; virtual = addr; bytes = size })
        (mappings es')
        (mappings es)
deallocate-Inserts es addr size es' e =
    let f = deallocate-Frees es addr size es' e in
    let (phy, m) =
      mapped_entry f.entry.physical_start f.entry.virtual_start f.entry.size f.mapped in
    (
      phy,
      record {
        before = mappings (rewind f.before []);
        after = mappings f.after;
        old = ap mappings f.new ∙ mappings-release f.before f.entry f.after;
        new =
            ap mappings f.old
            ∙ mappings-rewind f.before (f.entry ∷ f.after)
            ∙ ap (λ l. mappings (rewind f.before []) ++ (l ++ mappings f.after))
                (m
                  ∙ ap₂ (λ v n. record { physical = phy; virtual = v; bytes = n } ∷ []) f.here
                      f.whole);
      },
    )

deallocate_from-failure :
    (before es : List Entry) (addr size : ℕ) (err : SpaceError) (es' : List Entry)
    → deallocate_from before es addr size ≡ ok (failure err, es')
    → es' ≡ rewind before es
unfolding deallocate_from
deallocate_from-failure before [] addr size err es' e = cc
deallocate_from-failure before (x ∷ es) addr size err es' e =
    elim (Bool-cases (holds_addr x addr)) [
      | inl there ↦ ground (arith, e, there)
      | inr past ↦
          deallocate_from-failure (x ∷ before) es addr size err es' (ground (arith, e, past))
    ]

-- Where `deallocate` fails, the list is as it was.
pub deallocate-failure :
    (es : List Entry) (addr size : ℕ) (err : SpaceError) (es' : List Entry)
    → deallocate es addr size ≡ ok (failure err, es')
    → es' ≡ es
unfolding deallocate
deallocate-failure es addr size err es' e =
    deallocate_from-failure [] es addr size err es' (ground (arith, e))
