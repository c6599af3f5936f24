-- ===== src/Ring/History.antt =====
-- kernel/src/collections/ring.rs: whole histories of calls on one `RingBuffer`.
use emerald.Prelude.{ℕ, ◌-◌, ◌≡◌, refl, Bool, Option, List, [], ◌∷◌, length, Outcome, ok, ◌>>=◌}
use emerald.Ring.{RingBuffer, try_push, pop, clear}
use emerald.Ring.Refine.{queue_push, queue_pop, try_push_refines, pop_refines, clear-Holds}
use emerald.Ring.Window.{Holds}

-- One call, and what it returns.
pub data Op {ℓ} (A : Type ℓ) : Type ℓ where
  put : A → Op A
  take_one : Op A
  reset : Op A

pub data Reply {ℓ} (A : Type ℓ) : Type ℓ where
  stored : Bool → Reply A
  taken : Option A → Reply A
  done : Reply A

module _ {ℓ} {A : Type ℓ} where
  unfoldable pub run : RingBuffer A → List (Op A) → Outcome (List (Reply A))
  run r [] = ok []
  run r (put v ∷ ops) = do (b, r') ← try_push r v; replies ← run r' ops; ok (stored b ∷ replies)
  run r (take_one ∷ ops) = do (o, r') ← pop r; replies ← run r' ops; ok (taken o ∷ replies)
  run r (reset ∷ ops) = do replies ← run (clear r) ops; ok (done ∷ replies)

  -- The same calls on a queue of at most `cap` values.
  pub queue_run : ℕ → List A → List (Op A) → List (Reply A)
  queue_run cap xs [] = []
  queue_run cap xs (put v ∷ ops) =
      let (b, xs') = queue_push cap xs v in stored b ∷ queue_run cap xs' ops
  queue_run cap xs (take_one ∷ ops) = let (o, xs') = queue_pop xs in taken o ∷ queue_run cap xs' ops
  queue_run cap xs (reset ∷ ops) = done ∷ queue_run cap [] ops

  -- From a ring that holds `xs`, any sequence of `try_push`, `pop` and `clear` runs without a panic
  -- and without reading an unwritten slot, and answers as a queue of at most `N - 1` values does.
  pub run_refines :
      (ops : List (Op A)) (r : RingBuffer A) (xs : List A)
      → Holds r xs
      → run r ops ≡ ok (queue_run (length r.buffer - 1) xs ops)
  unfolding run queue_run clear
  run_refines [] r xs h = refl
  run_refines (put v ∷ ops) r xs h =
      let (r', e, h', same) = try_push_refines r xs h v in
      rw e (rw (run_refines ops r' _ h') (rw same))
  run_refines (take_one ∷ ops) r xs h =
      let (r', e, h', same) = pop_refines r xs h in rw e (rw (run_refines ops r' _ h') (rw same))
  run_refines (reset ∷ ops) r xs h = rw (run_refines ops (clear r) [] (clear-Holds r xs h))
