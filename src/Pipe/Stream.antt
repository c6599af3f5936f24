-- ===== src/Pipe/Stream.antt =====
-- kernel/src/devices/pipe.rs: the bytes that go through a pipe, over any sequence of calls.
use emerald.Prelude.{
  ℕ, zero, suc, ◌≡◌, refl, sym, ap, ◌∙◌, ◌&&◌, not, List, [], ◌∷◌, ◌++◌, append-nil, append_assoc,
  inl, inr, Result, success, failure, length, take, Bool-cases, ◌==◌,
}
use emerald.Pipe.{
  Side, read_side, write_side, Pipe, PipeError, read_loop, read, write_loop, write, close,
  clone_device, is_empty,
}

pub data Call : Type 0 where
  reads : Side → ℕ → Call
  writes : Side → List ℕ → Call
  closes : Side → Call
  clones : Side → Call

-- The bytes that reads got and that writes took, in order, and the pipe.
pub record Log : Type 0 where
  pub received : List ℕ
  pub accepted : List ℕ
  pub pipe : Pipe

abbrev pub received_by : Result PipeError (List ℕ) → List ℕ
received_by (success bytes) = bytes
received_by (failure _) = []

abbrev pub accepted_of : Result PipeError ℕ → List ℕ → List ℕ
accepted_of (success n) bytes = take n bytes
accepted_of (failure _) bytes = []

unfoldable pub call : Call → Pipe → Log
call (reads side len) p =
    let (r, p') = read side p len in record { received = received_by r; accepted = []; pipe = p' }
call (writes side bytes) p =
    let (r, p') = write side p bytes in
    record { received = []; accepted = accepted_of r bytes; pipe = p' }
call (closes side) p = record { received = []; accepted = []; pipe = close side p }
call (clones side) p = record { received = []; accepted = []; pipe = clone_device side p }

unfoldable pub run : List Call → Pipe → Log
unfolding call
run [] p = record { received = []; accepted = []; pipe = p }
run (c ∷ cs) p =
    let first = call c p in
    let rest = run cs first.pipe in
    record {
      received = first.received ++ rest.received;
      accepted = first.accepted ++ rest.accepted;
      pipe = rest.pipe;
    }

read_loop-eq : (n : ℕ) (xs : List ℕ) → (read_loop n xs).0 ++ (read_loop n xs).1 ≡ xs
unfolding read_loop
read_loop-eq zero xs = refl
read_loop-eq (suc n) [] = refl
read_loop-eq (suc n) (x ∷ xs) = ap (λ l. x ∷ l) (read_loop-eq n xs)

write_loop-eq : (xs bytes : List ℕ) → write_loop xs bytes ≡ xs ++ bytes
unfolding write_loop
write_loop-eq xs [] = sym (append-nil xs)
write_loop-eq xs (b ∷ bytes) = write_loop-eq (xs ++ (b ∷ [])) bytes ∙ append_assoc xs (b ∷ []) bytes

take-length : (xs : List ℕ) → take (length xs) xs ≡ xs
take-length [] = refl
take-length (x ∷ xs) = ap (λ l. x ∷ l) (take-length xs)

-- One call.
abbrev pub Streams : Pipe → Log → Type 0
Streams p log = log.received ++ log.pipe.buffer ≡ p.buffer ++ log.accepted

call-Streams : (c : Call) (p : Pipe) → Streams p (call c p)
unfolding call read write close clone_device
call-Streams (reads read_side len) p =
    elim (Bool-cases (not p.write_side_available && is_empty p.buffer)) [
      | inl over ↦ rw over (sym (append-nil p.buffer))
      | inr more ↦ rw more (read_loop-eq len p.buffer ∙ sym (append-nil p.buffer))
    ]
call-Streams (reads write_side len) p = sym (append-nil p.buffer)
call-Streams (writes read_side bytes) p = sym (append-nil p.buffer)
call-Streams (writes write_side bytes) p = elim (Bool-cases p.read_side_available) [
  | inl takes ↦
      rw takes (write_loop-eq p.buffer bytes ∙ ap (λ l. p.buffer ++ l) (sym (take-length bytes)))
  | inr closed ↦ rw closed (sym (append-nil p.buffer))
]
call-Streams (closes read_side) p = elim (Bool-cases (p.read_clones == 1)) [
  | inl last ↦ rw last (sym (append-nil p.buffer))
  | inr others ↦ rw others (sym (append-nil p.buffer))
]
call-Streams (closes write_side) p = elim (Bool-cases (p.write_clones == 1)) [
  | inl last ↦ rw last (sym (append-nil p.buffer))
  | inr others ↦ rw others (sym (append-nil p.buffer))
]
call-Streams (clones read_side) p = sym (append-nil p.buffer)
call-Streams (clones write_side) p = sym (append-nil p.buffer)

-- Over any sequence of reads, writes, closes and clones, on either side, what was read and what is left
-- in the pipe are together what was in it and what writes took, byte for byte and in order.
pub run-Streams : (cs : List Call) (p : Pipe) → Streams p (run cs p)
unfolding run
run-Streams [] p = sym (append-nil p.buffer)
run-Streams (c ∷ cs) p =
    append_assoc (call c p).received (run cs (call c p).pipe).received
      (run cs (call c p).pipe).pipe.buffer
    ∙ ap (λ l. (call c p).received ++ l) (run-Streams cs (call c p).pipe)
    ∙ sym
        (append_assoc (call c p).received (call c p).pipe.buffer (run cs (call c p).pipe).accepted)
    ∙ ap (λ l. l ++ (run cs (call c p).pipe).accepted) (call-Streams c p)
    ∙ append_assoc p.buffer (call c p).accepted (run cs (call c p).pipe).accepted
