-- ===== src/Scheduler/UserHeap.antt =====
-- kernel/src/process/mod.rs: `add_to_heap`, the heap of a process in its address space.
use emerald.Prelude.{
  ℕ, zero, suc, ◌+◌, ◌-◌, ◌%◌, ◌≤◌, ◌<◌, ◌≡◌, refl, inl, inr, Option, none, some, List, [], ◌∷◌,
  false, ◌||◌, Outcome, ok, ◌>>◌, ensure, Post, Post-bind, ensure-Post, ltb, ltb→lt, ◌==◌,
  if◌then◌else◌, Bool-cases, arith,
}
use mathlib.Core.Path.{subst}
use emerald.Memory.Layout.{page_4k, is_aligned}

-- What `add_to_heap` asks of the address space `vm`: to map or to unmap so many bytes from a start.
pub data Request : Type 0 where
  map unmap : ℕ → ℕ → Request

-- The calls of `vm` are kept in a list, the last one first; what `vm` does with them is not looked at.
pub record UserHeap : Type 0 where
  pub heap_start : ℕ
  pub heap_size : ℕ
  pub heap_max : ℕ
  pub requests : List Request

-- An `isize`, by its sign.
pub data Increment : Type 0 where
  up down : ℕ → Increment

abbrev pub ask : Request → UserHeap → UserHeap
ask request h = record h { requests = request ∷ h.requests }

-- The sizes are far below 2 ^ 63: `heap_max` is 1 GB.
unfoldable pub add_to_heap : Increment → UserHeap → Outcome (Option ℕ × UserHeap)
unfolding is_aligned
add_to_heap (up zero) h = ok (some (h.heap_start + h.heap_size), h)
add_to_heap (down zero) h = ok (some (h.heap_start + h.heap_size), h)
add_to_heap (up (suc n)) h =
    ensure (is_aligned (suc n) page_4k)
    >> ok (
        let new_size = h.heap_size + suc n in
        let old_end = h.heap_start + h.heap_size in
        if ltb h.heap_max new_size
        then (none, h)
        else (some old_end, ask (map old_end (suc n)) (record h { heap_size = new_size })))
add_to_heap (down (suc n)) h =
    ensure (is_aligned (suc n) page_4k)
    >> ok (
        let old_end = h.heap_start + h.heap_size in
        if ltb h.heap_size (suc n) || ltb h.heap_max (h.heap_size - suc n) then (none, h) else (
          some old_end,
          ask (unmap (old_end - suc n) (suc n)) (record h { heap_size = h.heap_size - suc n }),
        ))

-- A heap from `start` on that has come to `size` by these calls: it was empty, each call to map began
-- where the heap ended, and each call to unmap took its end.
abbrev pub Asked : ℕ → List Request → ℕ → Type 0
Asked start [] size = size ≡ 0
Asked start (map from n ∷ before) size =
    (n ≤ size) × (from ≡ start + (size - n)) × Asked start before (size - n)
Asked start (unmap from n ∷ before) size = (from ≡ start + size) × Asked start before (size + n)

-- The heap is whole pages within its bound, and the calls of `vm` have made it.
abbrev pub IsUserHeap : UserHeap → Type 0
IsUserHeap h =
    (h.heap_size ≤ h.heap_max)
    × (h.heap_size % page_4k ≡ 0)
    × Asked h.heap_start h.requests h.heap_size

abbrev pub grown : Increment → ℕ → ℕ
grown (up n) size = size + n
grown (down n) size = size - n

-- The new end stays above the start, and within the bound.
abbrev pub InRange : Increment → UserHeap → Type 0
InRange (up n) h = h.heap_size + n ≤ h.heap_max
InRange (down n) h = n ≤ h.heap_size

abbrev pub OutOfRange : Increment → UserHeap → Type 0
OutOfRange (up n) h = h.heap_max < h.heap_size + n
OutOfRange (down n) h = h.heap_size < n

-- The call refuses, and changes nothing, or moves the end of the heap and returns the end before.
abbrev pub Grows : Increment → UserHeap → Option ℕ × UserHeap → Type 0
Grows i h (none, h') = (h' ≡ h) × OutOfRange i h
Grows i h (some old_end, h') =
    InRange i h
    × (old_end ≡ h.heap_start + h.heap_size)
    × IsUserHeap h'
    × (h'.heap_start ≡ h.heap_start)
    × (h'.heap_size ≡ grown i h.heap_size)
    × (h'.heap_max ≡ h.heap_max)

-- From a heap of whole pages within its bound, which the calls of `vm` so far have made,
-- `add_to_heap`, where it does not panic, returns `None` exactly where the heap would get a negative
-- size or exceed its bound, and then changes nothing and calls nothing. Else it returns the end of
-- the heap as it was, moves it by the increment, and asks `vm` to map exactly what the heap gains, or
-- to unmap exactly what it loses.
pub add_to_heap-Grows :
    (i : Increment) (h : UserHeap) → IsUserHeap h → Post (Grows i h) (add_to_heap i h)
unfolding add_to_heap is_aligned
add_to_heap-Grows (up zero) h (b, w, m) =
    (omega (arith, b), refl, (b, w, m), refl, omega arith, refl)
add_to_heap-Grows (down zero) h (b, w, m) = (omega arith, refl, (b, w, m), refl, omega arith, refl)
add_to_heap-Grows (up (suc n)) h (b, w, m) =
    Post-bind _ (Grows (up (suc n)) h) (ensure (suc n % page_4k == 0)) _ (ensure-Post _) (λ u pages.
      elim (Bool-cases (ltb h.heap_max (h.heap_size + suc n))) [
        | inl over ↦ rw over (refl, ltb→lt h.heap_max (h.heap_size + suc n) over)
        | inr fits ↦ rw fits (
          ground (arith, fits),
          refl,
          (
            ground (arith, fits),
            ground (arith, w, pages),
            (omega arith, omega arith, subst (Asked h.heap_start h.requests) (omega arith) m),
          ),
          refl,
          refl,
          refl,
        )
      ])
add_to_heap-Grows (down (suc n)) h (b, w, m) =
    Post-bind _ (Grows (down (suc n)) h) (ensure (suc n % page_4k == 0)) _ (ensure-Post _)
      (λ u pages. elim (Bool-cases (ltb h.heap_size (suc n))) [
        | inl over ↦ rw over (refl, ltb→lt h.heap_size (suc n) over)
        | inr fits ↦
            rw (fits, small n)
              (
                ground (arith, fits),
                refl,
                (
                  omega (arith, b),
                  ground (arith, w, pages, fits),
                  (
                    ground (arith, fits),
                    subst (Asked h.heap_start h.requests) (ground (arith, fits)) m,
                  ),
                ),
                refl,
                refl,
                refl,
              )
      ])
  where
    small : (n : ℕ) → ltb h.heap_max (h.heap_size - suc n) ≡ false
    small n = ground (arith, b)
