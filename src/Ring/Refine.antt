-- ===== src/Ring/Refine.antt =====
-- kernel/src/collections/ring.rs against a bounded queue: every sequence of `try_push`, `pop` and
-- `clear` answers as the queue does.
use emerald.Prelude.{
  ℕ, suc, ◌+◌, ◌-◌, ◌%◌, ◌<◌, ◌≡◌, ◌≢◌, refl, ap, ap₂, sym, ◌∙◌, Bool, true, false, Option, none,
  some, inl, inr, List, [], ◌∷◌, ◌++◌, map, arith, length, length-set, length-replicate, get_or,
  set, get_or-set_self, get_elem?-eq-get_or, replicate, ok, ltb, if◌then◌else◌, Bool-cases,
}
use mathlib.Core.List.{map-append}
use emerald.Ring.{RingBuffer, empty, try_push, pop, clear}
use emerald.Ring.Window.{
  window, window-suc, window-set, length-window, ahead, ahead-lt, add-ahead, next-eq-read,
  ahead-next_write, ahead-next_read, ahead-eq-zero, count, slots, Holds,
}

module _ {ℓ} {A : Type ℓ} where
  length-map-some : (xs : List A) → length (map some xs) ≡ length xs
  length-map-some [] = refl
  length-map-some (x ∷ xs) = ap suc (length-map-some xs)

  -- The abstract queue of at most `cap` values.
  pub queue_push : ℕ → List A → A → Bool × List A
  queue_push cap xs v = if ltb (length xs) cap then (true, xs ++ (v ∷ [])) else (false, xs)

  pub queue_pop : List A → Option A × List A
  queue_pop [] = (none, [])
  queue_pop (x ∷ xs) = (some x, xs)

  module _ (r : RingBuffer A) (xs : List A) (h : Holds r xs) where
    pub count-Holds : count r ≡ length xs
    count-Holds =
        sym (length-window r.buffer (length r.buffer) r.read_index (count r))
        ∙ ap length h.content
        ∙ length-map-some xs

    -- A write to the free slot, and the new indices, hold the values and the new one.
    pub stored-Holds :
        (v : A)
        → count r + 1 ≢ length r.buffer
        → Holds
            (record {
              buffer = set r.buffer r.write_index (some v);
              read_index = r.read_index;
              write_index = (r.write_index + 1) % length r.buffer;
            })
            (xs ++ (v ∷ []))
    stored-Holds v ne = record {
      read_in = rw (length-set b w (some v)) h.read_in;
      write_in = rw (length-set b w (some v)) (omega arith);
      content = rw (length-set b w (some v)) (
          ap (window b' n r.read_index) {y = suc (count r)}
            (omega (arith, ahead-next_write n r.read_index w h.read_in h.write_in ne))
          ∙ stored
          ∙ ap (λ l. l ++ (some v ∷ [])) h.content
          ∙ sym (map-append some xs (v ∷ [])));
    }
      where
        b : List (Option A)
        b = r.buffer

        w : ℕ
        w = r.write_index

        n : ℕ
        n = length r.buffer

        b' : List (Option A)
        b' = set b w (some v)

        stored : window b' n r.read_index (suc (count r)) ≡ slots r ++ (some v ∷ [])
        stored =
            window-suc b' n r.read_index (count r) h.read_in
            ∙ ap₂ (λ l s. l ++ (s ∷ []))
                (window-set b n r.read_index (count r) w (some v) h.read_in
                  (ahead-lt n r.read_index w h.read_in h.write_in)
                  (sym (add-ahead n r.read_index w h.read_in h.write_in)))
                (rw (add-ahead n r.read_index w h.read_in h.write_in)
                  (get_or-set_self b w (some v) none h.write_in))

    pub full_test :
        length xs + 1 ≡ length r.buffer → ((r.write_index + 1) % length r.buffer) ≡ r.read_index
    full_test full =
        (next-eq-read (length r.buffer) r.read_index r.write_index h.read_in h.write_in).1
          (omega (arith, count-Holds))

    pub free_test :
        length xs + 1 ≢ length r.buffer → ((r.write_index + 1) % length r.buffer) ≢ r.read_index
    free_test free e = free (
        omega (
          arith,
          count-Holds,
          (next-eq-read (length r.buffer) r.read_index r.write_index h.read_in h.write_in).0 e,
        ))

    abbrev pub pushed : A → RingBuffer A
    pushed v = record {
      buffer = set r.buffer r.write_index (some v);
      read_index = r.read_index;
      write_index = (r.write_index + 1) % length r.buffer;
    }

    try_push_full : (v : A) → length xs + 1 ≡ length r.buffer → try_push r v ≡ ok (false, r)
    unfolding try_push
    try_push_full v full = ground (arith, full_test full, h.read_in)

    try_push_free : (v : A) → length xs + 1 ≢ length r.buffer → try_push r v ≡ ok (true, pushed v)
    unfolding try_push
    try_push_free v free = ground (arith, free_test free, h.read_in, h.write_in)

    -- `try_push` answers as `queue_push`, and leaves a ring that holds its queue.
    pub try_push_refines :
        (v : A)
        → let (done, xs') = queue_push (length r.buffer - 1) xs v in
          (r' : RingBuffer A) × (try_push r v ≡ ok (done, r'))
          × Holds r' xs'
          × (length r'.buffer ≡ length r.buffer)
    unfolding queue_push
    try_push_refines v = elim (Bool-cases (ltb (length xs) (length r.buffer - 1))) [
      | inl free ↦ rw free (
        pushed v,
        try_push_free v (ground arith),
        stored-Holds v (ground (arith, count-Holds)),
        length-set r.buffer r.write_index (some v),
      )
      | inr full ↦ rw full (
        r,
        try_push_full v (
            ground (
              arith,
              count-Holds,
              ahead-lt (length r.buffer) r.read_index r.write_index h.read_in h.write_in,
            )),
        h,
        refl,
      )
    ]

  -- The oldest value and the rest of a ring that is not empty.
  module _ (r : RingBuffer A) (x : A) (xs : List A) (h : Holds r (x ∷ xs)) where
    pub read-ne-write : r.read_index ≢ r.write_index
    read-ne-write e = absurd (
        omega (
          arith,
          count-Holds r (x ∷ xs) h,
          (ahead-eq-zero (length r.buffer) r.read_index r.write_index h.read_in h.write_in).0 e,
        ))

    pub count-next_read :
        count r ≡ suc (ahead (length r.buffer) ((r.read_index + 1) % length r.buffer) r.write_index)
    count-next_read =
        ahead-next_read (length r.buffer) r.read_index r.write_index h.read_in h.write_in
          read-ne-write

    split :
        get_or r.buffer r.read_index none
          ∷ window r.buffer
              (length r.buffer)
              ((r.read_index + 1) % length r.buffer)
              (ahead (length r.buffer) ((r.read_index + 1) % length r.buffer) r.write_index)
        ≡ some x ∷ map some xs
    split = ap (window r.buffer (length r.buffer) r.read_index) (sym count-next_read) ∙ h.content

    pub oldest : get_or r.buffer r.read_index none ≡ some x
    oldest = cc split

    pub rest :
        window r.buffer
          (length r.buffer)
          ((r.read_index + 1) % length r.buffer)
          (ahead (length r.buffer) ((r.read_index + 1) % length r.buffer) r.write_index)
        ≡ map some xs
    rest = cc split

    pop-some :
        let r' = record r { read_index = (r.read_index + 1) % length r.buffer } in
        (pop r ≡ ok (some x, r')) × Holds r' xs
    unfolding pop
    pop-some = (
      ground (
        arith,
        read-ne-write,
        oldest,
        get_elem?-eq-get_or r.buffer r.read_index none h.read_in,
        h.read_in,
      ),
      record { read_in = omega (arith, h.read_in); write_in = h.write_in; content = rest },
    )

  -- `pop` answers as `queue_pop`, and leaves a ring that holds the rest.
  pub pop_refines :
      (r : RingBuffer A) (xs : List A)
      → Holds r xs
      → let (out, xs') = queue_pop xs in
        (r' : RingBuffer A) × (pop r ≡ ok (out, r'))
        × Holds r' xs'
        × (length r'.buffer ≡ length r.buffer)
  unfolding queue_pop pop
  pop_refines r [] h = (r, none_left, h, refl)
    where
      none_left : pop r ≡ ok (none, r)
      none_left = ground (
        arith,
        count-Holds r [] h,
        (ahead-eq-zero (length r.buffer) r.read_index r.write_index h.read_in h.write_in).1
            (count-Holds r [] h),
      )
  pop_refines r (x ∷ xs) h = let (e, h') = pop-some r x xs h in (_, e, h', refl)

  start-Holds :
      (b : List (Option A))
      → 0 < length b
      → Holds (record { buffer = b; read_index = 0; write_index = 0 }) []
  start-Holds b pos = record {
    read_in = pos;
    write_in = pos;
    content = ap (window b (length b) 0) ((ahead-eq-zero (length b) 0 0 pos pos).0 refl);
  }

  pub clear-Holds : (r : RingBuffer A) (xs : List A) → Holds r xs → Holds (clear r) []
  unfolding clear
  clear-Holds r xs h = start-Holds r.buffer (omega (arith, h.read_in))

  pub empty-Holds : (n : ℕ) → 0 < n → Holds (empty {A = A} n) []
  unfolding empty
  empty-Holds n h = start-Holds (replicate n none) (rw (length-replicate {A = Option A} n none) h)
