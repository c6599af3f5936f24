-- ===== src/Ring.antt =====
-- kernel/src/collections/ring.rs: `RingBuffer<T, N>`, a ring that keeps one slot free.
pub mod Window
pub mod Refine
pub mod History
pub mod Replace
mod Examples
use emerald.Prelude.{
  ℕ, ◌+◌, ◌%◌, Bool, true, false, Option, none, some, List, Outcome, ok, panic, undefined, ◌>>=◌,
  length, get_elem?, set, replicate, ◌==◌, ltb, if◌then◌else◌,
}

-- A slot that no value was written to is `none`. The values are `Copy`, since `empty` is the only
-- constructor, so reading or dropping one leaves the slot as it is.
pub record RingBuffer {ℓ} (A : Type ℓ) : Type ℓ where
  pub buffer : List (Option A)
  pub read_index : ℕ
  pub write_index : ℕ

module _ {ℓ} {A : Type ℓ} where
  -- `(i + 1) % self.buffer.len()`; the remainder by 0 panics. `i` is below the length of an array,
  -- so the sum does not overflow.
  pub advance : RingBuffer A → ℕ → Outcome ℕ
  advance r i = if length r.buffer == 0 then panic else ok ((i + 1) % length r.buffer)

  -- `self.buffer[i] = MaybeUninit::new(value)`
  pub store : RingBuffer A → ℕ → A → Outcome (RingBuffer A)
  store r i v =
      if ltb i (length r.buffer) then ok (record r { buffer = set r.buffer i (some v) }) else panic

  -- `self.buffer[i].assume_init_read()`
  pub load : RingBuffer A → ℕ → Outcome A
  load r i = elim (get_elem? r.buffer i) [
    | none ↦ panic
    | some slot ↦ elim slot [ none ↦ undefined | some v ↦ ok v ]
  ]

  pub empty : ℕ → RingBuffer A
  empty n = record { buffer = replicate n none; read_index = 0; write_index = 0 }

  pub try_push : RingBuffer A → A → Outcome (Bool × RingBuffer A)
  unfolding advance store
  try_push r v = do
    next ← advance r r.write_index
    if next == r.read_index
        then ok (false, r)
        else do r' ← store r r.write_index v; ok (true, record r' { write_index = next })

  pub push : RingBuffer A → A → Outcome (RingBuffer A)
  unfolding advance store
  push r v = do
    next ← advance r r.write_index
    if next == r.read_index
        then panic
        else do r' ← store r r.write_index v; ok (record r' { write_index = next })

  pub push_replace : RingBuffer A → A → Outcome (RingBuffer A)
  unfolding advance store load
  push_replace r v = do
    next ← advance r r.write_index
    if next == r.read_index
        then (do
          dropped ← load r r.read_index
          r' ← store r r.read_index v
          read ← advance r r.read_index
          ok (record r' { write_index = next; read_index = read }))
        else do r' ← store r r.write_index v; ok (record r' { write_index = next })

  pub pop : RingBuffer A → Outcome (Option A × RingBuffer A)
  unfolding advance load
  pop r = if r.read_index == r.write_index then ok (none, r) else do
    v ← load r r.read_index
    read ← advance r r.read_index
    ok (some v, record r { read_index = read })

  pub clear : RingBuffer A → RingBuffer A
  clear r = record r { read_index = 0; write_index = 0 }
