-- ===== src/Ring/Examples.antt =====
-- Runs of kernel/src/collections/ring.rs on small rings, and its theorems at them.
use emerald.Prelude.{
  ℕ, ◌≡◌, refl, true, false, none, some, List, [], ◌∷◌, arith, ok, panic, undefined, ◌>>=◌,
}
use emerald.Ring.{RingBuffer, try_push, push, push_replace, pop, clear}
use emerald.Ring.History.{
  Op, put, take_one, reset, stored, taken, done, run, queue_run, run_refines,
}
use emerald.Ring.Window.{Holds}

-- 7, 8, then 9 round the end of the buffer; slot 1 is the free one.
abbrev full_ring : RingBuffer ℕ
full_ring = record {
  buffer = some 9 ∷ none ∷ some 7 ∷ some 8 ∷ [];
  read_index = 2;
  write_index = 1;
}

abbrev half_ring : RingBuffer ℕ
half_ring = record { buffer = none ∷ none ∷ some 7 ∷ none ∷ []; read_index = 2; write_index = 3 }

abbrev script : List (Op ℕ)
script = put 1 ∷ take_one ∷ put 2 ∷ take_one ∷ reset ∷ take_one ∷ put 3 ∷ take_one ∷ []

full_ring-Holds : Holds full_ring (7 ∷ 8 ∷ 9 ∷ [])
full_ring-Holds = record { read_in = omega arith; write_in = omega arith; content = refl }

half_ring-Holds : Holds half_ring (7 ∷ [])
half_ring-Holds = record { read_in = omega arith; write_in = omega arith; content = refl }

run-full_ring :
    run full_ring script
    ≡ ok (
        stored false
        ∷ taken (some 7)
        ∷ stored true
        ∷ taken (some 8)
        ∷ done
        ∷ taken none
        ∷ stored true
        ∷ taken (some 3)
        ∷ [])
unfolding run try_push pop clear
run-full_ring = refl

-- The replacement is lost, and the third `pop` reads a slot that was never written.
replaced_undefined :
    (push_replace full_ring 10 >>= λ r. run r (take_one ∷ take_one ∷ take_one ∷ [])) ≡ undefined
unfolding run push_replace pop
replaced_undefined = refl

push_full : push full_ring 1 ≡ panic
unfolding push
push_full = refl

run_refines_example : run full_ring script ≡ ok (queue_run 3 (7 ∷ 8 ∷ 9 ∷ []) script)
run_refines_example = run_refines script full_ring (7 ∷ 8 ∷ 9 ∷ []) full_ring-Holds
