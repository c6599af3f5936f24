-- ===== src/Scheduler/Process.antt =====
-- kernel/src/process/mod.rs: what the scheduler uses of a process, and the levels of priority of
-- libraries/kernel_user_link/src/process.rs.
use emerald.Prelude.{
  ℕ, ◌≡◌, refl, Option, none, some, List, [], ◌∷◌, Bool, true, false, Outcome, ok, ◌>>◌, ensure,
  ltb, ◌==◌, if◌then◌else◌,
}
use emerald.Scheduler.Context.{ProcessContext}

pub data PriorityLevel : Type 0 where
  very_low low normal high very_high : PriorityLevel

abbrev pub to_u64 : PriorityLevel → ℕ
to_u64 very_low = 1
to_u64 low = 2
to_u64 normal = 3
to_u64 high = 4
to_u64 very_high = 5

unfoldable pub from_u64 : ℕ → Option PriorityLevel
from_u64 v =
    if v == 1
    then some very_low
    else if v == 2
    then some low
    else if v == 3
    then some normal
    else if v == 4
    then some high
    else if v == 5
    then some very_high
    else none

-- Rust's `BTreeMap` with numbers for keys: its entries in the order of the keys.
abbrev pub Map {ℓ} : Type ℓ → Type ℓ
Map A = List (ℕ × A)

module _ {ℓ} {A : Type ℓ} where
  abbrev pub get_mut : ℕ → Map A → Option A
  get_mut k [] = none
  get_mut k ((k', a) ∷ m) = if k == k' then some a else get_mut k m

  abbrev pub insert : ℕ → A → Map A → Map A
  insert k a [] = (k, a) ∷ []
  insert k a ((k', a') ∷ m) =
      let rest = insert k a m in
      if ltb k k' then (k, a) ∷ (k', a') ∷ m else if k == k' then (k, a) ∷ m else (k', a') ∷ rest

  -- A write through `get_mut`.
  abbrev pub write : ℕ → A → Map A → Map A
  write k a [] = []
  write k a ((k', a') ∷ m) =
      let rest = write k a m in if k == k' then (k', a) ∷ m else (k', a') ∷ rest

  abbrev pub remove : ℕ → Map A → Map A
  remove k [] = []
  remove k ((k', a) ∷ m) = let rest = remove k m in if k == k' then m else (k', a) ∷ rest

abbrev pub is_none {ℓ} : {A : Type ℓ} → Option A → Bool
is_none none = true
is_none (some a) = false

-- An `i32` is its pattern of 32 bits. The files and the heap of a process are in Files and UserHeap.
pub record Process : Type 0 where
  pub context : ProcessContext
  pub id : ℕ
  pub parent_id : ℕ
  pub priority : PriorityLevel
  pub exit_code : ℕ
  pub children_exits : Map ℕ

-- `exit`; the release of the display is not modelled.
abbrev pub exit : ℕ → Process → Process
exit code p = record p { exit_code = code }

abbrev pub add_child_exit : ℕ → ℕ → Process → Outcome Process
add_child_exit pid code p =
    ensure (is_none (get_mut pid p.children_exits))
    >> ok (record p { children_exits = insert pid code p.children_exits })

abbrev pub get_child_exit : ℕ → Process → Option ℕ × Process
get_child_exit pid p =
    (get_mut pid p.children_exits, record p { children_exits = remove pid p.children_exits })

pub from_u64-to_u64 : (l : PriorityLevel) → from_u64 (to_u64 l) ≡ some l
unfolding from_u64
from_u64-to_u64 very_low = refl
from_u64-to_u64 low = refl
from_u64-to_u64 normal = refl
from_u64-to_u64 high = refl
from_u64-to_u64 very_high = refl
