-- ===== src/Ring/Replace.antt =====
-- kernel/src/collections/ring.rs: `push`, which panics on a full ring, and `push_replace`, which is
-- meant to drop the oldest value of a full ring for the new one.
use emerald.Prelude.{
  ℕ, suc, ◌+◌, ◌%◌, ◌<◌, ◌≡◌, ◌≢◌, ap, ap₂, sym, ◌∙◌, Option, none, some, List, [], ◌∷◌, ◌++◌, map,
  arith, length, get_or, set, length-set, get_elem?-eq-get_or, ok, panic, ◌>>=◌, if◌then◌else◌,
}
use emerald.Ring.{RingBuffer, try_push, push, push_replace}
use emerald.Ring.Refine.{
  stored-Holds, full_test, free_test, pushed, oldest, rest, count-next_read, count-Holds,
}
use emerald.Ring.Window.{
  window, window-suc, window-set, ahead, ahead-cases, next-cases, add-ahead, slots, Holds,
}

module _ {ℓ} {A : Type ℓ} where
  -- `push` does what `try_push` does, and panics where that one returns `false`.
  pub push-eq-try_push :
      (r : RingBuffer A) (v : A)
      → push r v ≡ (try_push r v >>= λ result. if result.0 then ok result.1 else panic)
  unfolding push try_push
  push-eq-try_push r v = ground arith

  -- On a ring with room, `push_replace` adds the value as the newest.
  pub push_replace_free :
      (r : RingBuffer A) (xs : List A) (v : A)
      → Holds r xs
      → length xs + 1 ≢ length r.buffer
      → (r' : RingBuffer A) × (push_replace r v ≡ ok r') × Holds r' (xs ++ (v ∷ []))
  unfolding push_replace
  push_replace_free r xs v h free = (
    pushed r xs h v,
    ground (arith, free_test r xs h free, h.read_in, h.write_in),
    stored-Holds r xs h v (omega (arith, count-Holds r xs h)),
  )

  -- On a full ring, `push_replace` drops the oldest value, and the slot that it makes the newest is
  -- the free slot as it was before the call: the new value is not among those that `pop` returns.
  pub push_replace_full :
      (r : RingBuffer A) (x : A) (xs : List A) (v : A)
      → Holds r (x ∷ xs)
      → length (x ∷ xs) + 1 ≡ length r.buffer
      → (r' : RingBuffer A) × (push_replace r v ≡ ok r')
        × (slots r' ≡ map some xs ++ (get_or r.buffer r.write_index none ∷ []))
  unfolding push_replace
  push_replace_full r x xs v h full = (
    record { buffer = set b r.read_index (some v); read_index = start; write_index = next },
    ground (
      arith,
      next_is_read,
      oldest r x xs h,
      get_elem?-eq-get_or b r.read_index none h.read_in,
      h.read_in,
    ),
    rw (length-set b r.read_index (some v)) (
        ap (window b' n start) {y = suc (length xs)} behind
        ∙ window-set b n start (suc (length xs)) r.read_index (some v) start_in (omega arith)
            (sym back)
        ∙ window-suc b n start (length xs) start_in
        ∙ ap₂ (λ l i. l ++ (get_or b i none ∷ []))
            (ap (window b n start) (sym tail) ∙ rest r x xs h)
            (ap (λ k. (start + k) % n) (sym tail)
              ∙ add-ahead n start r.write_index start_in h.write_in)),
  )
    where
      b : List (Option A)
      b = r.buffer

      n : ℕ
      n = length b

      start : ℕ
      start = (r.read_index + 1) % n

      next : ℕ
      next = (r.write_index + 1) % n

      next_is_read : next ≡ r.read_index
      next_is_read = full_test r (x ∷ xs) h full

      b' : List (Option A)
      b' = set b r.read_index (some v)

      start_in : start < n
      start_in = omega (arith, h.read_in)

      tail : ahead n start r.write_index ≡ length xs
      tail = omega (arith, count-Holds r (x ∷ xs) h, count-next_read r x xs h)

      around : ahead n start r.read_index ≡ suc (length xs)
      around = omega (
        arith,
        ahead-cases n start r.read_index start_in h.read_in,
        next-cases n r.read_index h.read_in,
      )

      behind : ahead n start next ≡ suc (length xs)
      behind = ap (ahead n start) next_is_read ∙ around

      back : (start + suc (length xs)) % n ≡ r.read_index
      back =
          ap (λ k. (start + k) % n) (sym around) ∙ add-ahead n start r.read_index start_in h.read_in
