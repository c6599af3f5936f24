-- ===== src/Ring/Window.antt =====
-- The slots that a `RingBuffer` holds between its two indices, in the order of `pop`, for
-- kernel/src/collections/ring.rs.
use emerald.Prelude.{
  ℕ, zero, suc, ◌+◌, ◌-◌, ◌%◌, ◌≤◌, ◌<◌, ◌≡◌, ◌≢◌, ◌⊎◌, ◌↔◌, inl, inr, refl, ap, ap₂, ◌∙◌, Option,
  none, some, List, [], ◌∷◌, ◌++◌, map, arith, length, get_or, set, get_or-set_ne, dec_lt,
}
use native.Mathlib.Nat.{mod-add-mod, mod-eq_of_lt, mod-eq-sub-mod, add-zero}
use emerald.Ring.{RingBuffer}

-- Fewer than `n` steps round the ring do not come back to the start.
pub add-mod-ne : (n start k : ℕ) → start < n → suc k < n → (start + suc k) % n ≢ start
add-mod-ne n start k hs hk = elim (dec_lt (start + suc k) n) [
  | yes below ↦ omega (arith, mod-eq_of_lt below)
  | no above ↦ omega (
    arith,
    mod-eq-sub-mod {n = start + suc k} {m = n} (omega arith),
    mod-eq_of_lt {n = start + suc k - n} {m = n} (omega arith),
  )
]

-- How far `write` is ahead of `read`, round a ring of `n` slots.
abbrev pub ahead : ℕ → ℕ → ℕ → ℕ
ahead n read write = (write + n - read) % n

pub ahead-cases :
    (n read write : ℕ)
    → read < n
    → write < n
    → ((read ≤ write) × (ahead n read write + read ≡ write))
      ⊎ ((write < read) × (ahead n read write + read ≡ write + n))
ahead-cases n read write hr hw = elim (dec_lt write read) [
  | yes below ↦
      inr (below, omega (arith, mod-eq_of_lt {n = write + n - read} {m = n} (omega arith)))
  | no above ↦ inl (
    omega arith,
    omega (
      arith,
      mod-eq-sub-mod {n = write + n - read} {m = n} (omega arith),
      mod-eq_of_lt {n = write + n - read - n} {m = n} (omega arith),
    ),
  )
]

pub next-cases :
    (n i : ℕ) → i < n → ((i + 1 < n) × ((i + 1) % n ≡ i + 1)) ⊎ ((i + 1 ≡ n) × ((i + 1) % n ≡ 0))
next-cases n i h = elim (dec_lt (i + 1) n) [
  | yes below ↦ inl (below, mod-eq_of_lt below)
  | no above ↦ inr (
    omega arith,
    omega (
      arith,
      mod-eq-sub-mod {n = i + 1} {m = n} (omega arith),
      mod-eq_of_lt {n = i + 1 - n} {m = n} (omega arith),
    ),
  )
]

module _ (n read write : ℕ) (hr : read < n) (hw : write < n) where
  pub ahead-lt : ahead n read write < n
  ahead-lt = omega (arith, ahead-cases n read write hr hw)

  pub add-ahead : (read + ahead n read write) % n ≡ write
  add-ahead = elim (ahead-cases n read write hr hw) [
    | inl (le, e) ↦
        omega (arith, mod-eq_of_lt {n = read + ahead n read write} {m = n} (omega arith))
    | inr (lt, e) ↦ omega (
      arith,
      mod-eq-sub-mod {n = read + ahead n read write} {m = n} (omega arith),
      mod-eq_of_lt {n = read + ahead n read write - n} {m = n} (omega arith),
    )
  ]

  -- The next write index meets the read index exactly when one slot is left.
  pub next-eq-read : ((write + 1) % n ≡ read) ↔ (ahead n read write + 1 ≡ n)
  next-eq-read = (
    λ e. omega (arith, ahead-cases n read write hr hw, next-cases n write hw),
    λ e. omega (arith, ahead-cases n read write hr hw, next-cases n write hw),
  )

  pub ahead-next_write :
      ahead n read write + 1 ≢ n → ahead n read ((write + 1) % n) ≡ ahead n read write + 1
  ahead-next_write ne = omega (
    arith,
    ahead-cases n read write hr hw,
    next-cases n write hw,
    ahead-cases n read ((write + 1) % n) hr (omega arith),
  )

  pub ahead-next_read : read ≢ write → ahead n read write ≡ suc (ahead n ((read + 1) % n) write)
  ahead-next_read ne = omega (
    arith,
    ahead-cases n read write hr hw,
    next-cases n read hr,
    ahead-cases n ((read + 1) % n) write (omega arith) hw,
  )

  pub ahead-eq-zero : (read ≡ write) ↔ (ahead n read write ≡ 0)
  ahead-eq-zero = (
    λ e. omega (arith, ahead-cases n read write hr hw),
    λ e. omega (arith, ahead-cases n read write hr hw),
  )

module _ {ℓ} {A : Type ℓ} where
  -- The `count` slots from `start` on, going round at the length `n` of the buffer.
  abbrev pub window : List (Option A) → ℕ → ℕ → ℕ → List (Option A)
  window buffer n start zero = []
  window buffer n start (suc count) =
      get_or buffer start none ∷ window buffer n ((start + 1) % n) count

  pub length-window :
      (b : List (Option A)) (n start count : ℕ) → length (window b n start count) ≡ count
  length-window b n start zero = refl
  length-window b n start (suc count) = ap suc (length-window b n ((start + 1) % n) count)

  -- The last slot of a longer window.
  pub window-suc :
      (b : List (Option A)) (n start count : ℕ)
      → start < n
      → window b n start (suc count)
        ≡ window b n start count ++ (get_or b ((start + count) % n) none ∷ [])
  window-suc b n start zero hs = rw (add-zero, mod-eq_of_lt hs)
  window-suc b n start (suc count) hs =
      ap (λ w. get_or b start none ∷ w)
        (window-suc b n ((start + 1) % n) count (omega arith)
          ∙ ap (λ i. window b n ((start + 1) % n) count ++ (get_or b i none ∷ [])) shift)
    where
      shift : ((start + 1) % n + count) % n ≡ (start + suc count) % n
      shift = rw mod-add-mod (ap (λ k. k % n) (omega arith))

  -- A write outside a window does not show in it.
  pub window-set :
      (b : List (Option A)) (n start count i : ℕ) (v : Option A)
      → start < n
      → count < n
      → i ≡ (start + count) % n
      → window (set b i v) n start count ≡ window b n start count
  window-set b n start zero i v hs hc e = refl
  window-set b n start (suc count) i v hs hc e =
      ap₂ ◌∷◌ (get_or-set_ne b i start v none (rw e (add-mod-ne n start count hs hc)))
        (window-set b n ((start + 1) % n) count i v (omega arith) (omega arith) (e ∙ shift))
    where
      shift : (start + suc count) % n ≡ ((start + 1) % n + count) % n
      shift = rw mod-add-mod (ap (λ k. k % n) (omega arith))

  -- How many values the ring holds.
  abbrev pub count : RingBuffer A → ℕ
  count r = ahead (length r.buffer) r.read_index r.write_index

  abbrev pub slots : RingBuffer A → List (Option A)
  slots r = window r.buffer (length r.buffer) r.read_index (count r)

  -- The ring holds the values `xs`, oldest first.
  pub record Holds (r : RingBuffer A) (xs : List A) : Type ℓ where
    pub read_in : r.read_index < length r.buffer
    pub write_in : r.write_index < length r.buffer
    pub content : slots r ≡ map some xs
