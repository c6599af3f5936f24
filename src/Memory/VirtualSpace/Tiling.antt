-- ===== src/Memory/VirtualSpace/Tiling.antt =====
-- What the entries of kernel/src/memory_management/virtual_space.rs are at all times meant to be:
-- consecutive ranges that fill the extra memory.
use emerald.Prelude.{
  ℕ, ◌+◌, ◌≤◌, ◌<◌, ◌≡◌, ◌⊎◌, refl, sym, ap, ◌∙◌, Option, none, some, List, [], ◌∷◌, ◌++◌,
  append_assoc, true, false, arith,
}
use mathlib.Core.Path.{subst}
use emerald.Memory.Layout.{kernel_extra_memory_base, kernel_last_possible_addr}
use emerald.Memory.VirtualSpace.{Entry, rewind}

-- The entries fill the addresses from `start` to `stop`, in order and without overlap.
abbrev pub Tiles : ℕ → List Entry → ℕ → Type 0
Tiles start [] stop = start ≡ stop
Tiles start (e ∷ es) stop = (e.virtual_start ≡ start) × Tiles (start + e.size) es stop

-- The same for the entries before a cursor, nearest first.
abbrev pub TilesBack : ℕ → List Entry → ℕ → Type 0
TilesBack start [] stop = start ≡ stop
TilesBack start (p ∷ before) stop =
    (p.virtual_start + p.size ≡ stop) × TilesBack start before p.virtual_start

pub Tiles-rewind :
    (before after : List Entry) (start mid stop : ℕ)
    → TilesBack start before mid
    → Tiles mid after stop
    → Tiles start (rewind before after) stop
Tiles-rewind [] after start mid stop b a = subst (λ x. Tiles x after stop) (sym b) a
Tiles-rewind (p ∷ before) after start mid stop b a =
    Tiles-rewind before (p ∷ after) start p.virtual_start stop b.1
      (refl, subst (λ x. Tiles x after stop) (sym b.0) a)

-- A physical range with the virtual range that it is mapped to.
pub record Mapping : Type 0 where
  pub physical : ℕ
  pub virtual : ℕ
  pub bytes : ℕ

abbrev pub mapping_at : Option ℕ → ℕ → ℕ → List Mapping
mapping_at none start n = []
mapping_at (some p) start n = record { physical = p; virtual = start; bytes = n } ∷ []

-- The live mappings, in the order of the list.
abbrev pub mappings : List Entry → List Mapping
mappings [] = []
mappings (e ∷ es) = mapping_at e.physical_start e.virtual_start e.size ++ mappings es

-- Each mapping lies behind `start` and before all those that follow it, and ends by `stop`.
abbrev pub Apart : ℕ → List Mapping → ℕ → Type 0
Apart start [] stop = start ≤ stop
Apart start (m ∷ ms) stop = (start ≤ m.virtual) × Apart (m.virtual + m.bytes) ms stop

Apart-mono : (ms : List Mapping) (a b stop : ℕ) → a ≤ b → Apart b ms stop → Apart a ms stop
Apart-mono [] a b stop le h = omega arith
Apart-mono (m ∷ ms) a b stop le h = (omega arith, h.1)

Apart-mapping_at :
    (o : Option ℕ) (start v n : ℕ) (ms : List Mapping) (stop : ℕ)
    → v ≡ start
    → Apart (start + n) ms stop
    → Apart start (mapping_at o v n ++ ms) stop
Apart-mapping_at none start v n ms stop e h = Apart-mono ms start (start + n) stop (omega arith) h
Apart-mapping_at (some p) start v n ms stop e h =
    (omega arith, Apart-mono ms (v + n) (start + n) stop (omega arith) h)

-- Where the entries tile a range, no two live mappings overlap.
pub Tiles-Apart :
    (es : List Entry) (start stop : ℕ) → Tiles start es stop → Apart start (mappings es) stop
Tiles-Apart [] start stop h = omega arith
Tiles-Apart (e ∷ es) start stop h =
    Apart-mapping_at e.physical_start start e.virtual_start e.size (mappings es) stop h.0
      (Tiles-Apart es (start + e.size) stop h.1)

-- Entries at the end of a tiling may be replaced by others that tile the same range.
pub Tiles-replace :
    (before xs ys : List Entry) (start stop : ℕ)
    → ((mid : ℕ) → Tiles mid xs stop → Tiles mid ys stop)
    → Tiles start (before ++ xs) stop
    → Tiles start (before ++ ys) stop
Tiles-replace [] xs ys start stop f h = f start h
Tiles-replace (p ∷ before) xs ys start stop f h =
    (h.0, Tiles-replace before xs ys (start + p.size) stop f h.1)

pub mappings-append : (xs ys : List Entry) → mappings (xs ++ ys) ≡ mappings xs ++ mappings ys
mappings-append [] ys = refl
mappings-append (x ∷ xs) ys =
    ap (λ l. mapping_at x.physical_start x.virtual_start x.size ++ l) (mappings-append xs ys)
    ∙ sym (
        append_assoc (mapping_at x.physical_start x.virtual_start x.size) (mappings xs)
          (mappings ys))

pub mapping_at-free :
    (o : Option ℕ) (v n : ℕ)
    → (elim o [ none ↦ true | some _ ↦ false ]) ≡ true
    → mapping_at o v n ≡ []
mapping_at-free none v n h = refl
mapping_at-free (some p) v n h = cc

-- `ms'` is `ms` with `m` put in.
pub record Inserts (m : Mapping) (ms ms' : List Mapping) : Type 0 where
  pub before : List Mapping
  pub after : List Mapping
  pub old : ms ≡ before ++ after
  pub new : ms' ≡ before ++ (m ∷ after)

-- Some live mapping holds the physical address.
abbrev pub Covered : ℕ → List Mapping → Type 0
Covered phy [] = ⊥
Covered phy (m ∷ ms) = ((m.physical ≤ phy) × (phy < m.physical + m.bytes)) ⊎ Covered phy ms

-- Between calls the list is empty, before the first allocation, or fills the extra memory.
abbrev pub IsSpace : List Entry → Type 0
IsSpace es = (es ≡ []) ⊎ Tiles kernel_extra_memory_base es kernel_last_possible_addr
