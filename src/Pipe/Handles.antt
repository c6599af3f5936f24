-- ===== src/Pipe/Handles.antt =====
-- kernel/src/devices/pipe.rs: handles on the two sides, and the end of the stream.
use emerald.Prelude.{
  ℕ, ◌+◌, ◌-◌, ◌%◌, ◌<◌, ◌≡◌, inl, inr, refl, sym, ◌∙◌, Bool, true, false, ◌&&◌, not, List, [], ◌∷◌,
  Result, success, failure, length, Bool-cases, if◌then◌else◌, arith, ◌==◌, ==_iff,
}
use emerald.Prelude.Words.{u64_mod}
use emerald.Pipe.{
  Side, read_side, write_side, Pipe, PipeError, end_of_file, create_pipe_pair, read_loop, read,
  write_loop, write, close, clone_device, is_empty,
}
use emerald.Pipe.Stream.{Call, reads, writes, closes, clones, call, run}

abbrev pub handles : Side → Pipe → ℕ
handles read_side p = p.read_clones
handles write_side p = p.write_clones

abbrev pub is_available : Side → Pipe → Bool
is_available read_side p = p.read_side_available
is_available write_side p = p.write_side_available

-- A side is available exactly while there is a handle on it, and the counters have not wrapped.
pub record IsCounted (p : Pipe) : Type 0 where
  pub reading : p.read_side_available ≡ not (p.read_clones == 0)
  pub writing : p.write_side_available ≡ not (p.write_clones == 0)
  pub read_bound : p.read_clones < u64_mod
  pub write_bound : p.write_clones < u64_mod

-- Calls are made on handles: no call on a side without one; and there are never 2 ^ 64 of them.
abbrev pub OnHandle : Call → Pipe → Type 0
OnHandle (reads side len) p = 0 < handles side p
OnHandle (writes side bytes) p = 0 < handles side p
OnHandle (closes side) p = 0 < handles side p
OnHandle (clones side) p = (0 < handles side p) × (handles side p + 1 < u64_mod)

abbrev pub OnHandles : List Call → Pipe → Type 0
OnHandles [] p = Unit
OnHandles (c ∷ cs) p = OnHandle c p × OnHandles cs (call c p).pipe

closed-lem : (n : ℕ) → (n == 1) ≡ true → not ((n + u64_mod - 1) % u64_mod == 0) ≡ false
closed-lem n last = rw ((==_iff n 1).0 last) refl

counted-down :
    (n : ℕ)
    → 0 < n
    → n < u64_mod
    → (n == 1) ≡ false
    → not (n == 0) ≡ not ((n + u64_mod - 1) % u64_mod == 0)
counted-down n pos bound others = ground (arith, pos, bound, others)

counted-up : (n : ℕ) → 0 < n → n + 1 < u64_mod → not (n == 0) ≡ not ((n + 1) % u64_mod == 0)
counted-up n pos bound = ground (arith, pos, bound)

rebuffered : (p : Pipe) (buffer : List ℕ) → IsCounted p → IsCounted (record p { buffer = buffer })
rebuffered p buffer k = record {
  reading = k.reading;
  writing = k.writing;
  read_bound = k.read_bound;
  write_bound = k.write_bound;
}

either_way :
    {A : Type 0} (b : Bool) (x y : Result PipeError A × Pipe)
    → IsCounted x.1
    → IsCounted y.1
    → IsCounted (if b then x else y).1
either_way true x y hx hy = hx
either_way false x y hx hy = hy

call-IsCounted : (c : Call) (p : Pipe) → IsCounted p → OnHandle c p → IsCounted (call c p).pipe
unfolding call read write close clone_device
call-IsCounted (reads read_side len) p k h =
    either_way (not p.write_side_available && is_empty p.buffer) (failure end_of_file, p)
      (success (read_loop len p.buffer).0, record p { buffer = (read_loop len p.buffer).1 }) k
      (rebuffered p (read_loop len p.buffer).1 k)
call-IsCounted (reads write_side len) p k h = k
call-IsCounted (writes read_side bytes) p k h = k
call-IsCounted (writes write_side bytes) p k h =
    either_way p.read_side_available
      (success (length bytes), record p { buffer = write_loop p.buffer bytes })
      (failure end_of_file, p) (rebuffered p (write_loop p.buffer bytes) k) k
call-IsCounted (closes read_side) p k h = elim (Bool-cases (p.read_clones == 1)) [
  | inl last ↦ rw last (record {
    reading = sym (closed-lem p.read_clones last);
    writing = k.writing;
    read_bound = omega arith;
    write_bound = k.write_bound;
  })
  | inr others ↦ rw others (record {
    reading = k.reading ∙ counted-down p.read_clones h k.read_bound others;
    writing = k.writing;
    read_bound = omega arith;
    write_bound = k.write_bound;
  })
]
call-IsCounted (closes write_side) p k h = elim (Bool-cases (p.write_clones == 1)) [
  | inl last ↦ rw last (record {
    reading = k.reading;
    writing = sym (closed-lem p.write_clones last);
    read_bound = k.read_bound;
    write_bound = omega arith;
  })
  | inr others ↦ rw others (record {
    reading = k.reading;
    writing = k.writing ∙ counted-down p.write_clones h k.write_bound others;
    read_bound = k.read_bound;
    write_bound = omega arith;
  })
]
call-IsCounted (clones read_side) p k h = record {
  reading = k.reading ∙ counted-up p.read_clones h.0 h.1;
  writing = k.writing;
  read_bound = omega arith;
  write_bound = k.write_bound;
}
call-IsCounted (clones write_side) p k h = record {
  reading = k.reading;
  writing = k.writing ∙ counted-up p.write_clones h.0 h.1;
  read_bound = k.read_bound;
  write_bound = omega arith;
}

run-IsCounted :
    (cs : List Call) (p : Pipe) → IsCounted p → OnHandles cs p → IsCounted (run cs p).pipe
unfolding run
run-IsCounted [] p k h = k
run-IsCounted (c ∷ cs) p k h = run-IsCounted cs (call c p).pipe (call-IsCounted c p k h.0) h.1

create-IsCounted : IsCounted create_pipe_pair
unfolding create_pipe_pair
create-IsCounted = record {
  reading = refl;
  writing = refl;
  read_bound = omega arith;
  write_bound = omega arith;
}

-- What the sides answer, told by the handles.
abbrev pub Answers : Pipe → Type 0
Answers p =
    ((len : ℕ)
      → (read read_side p len).0 ≡ (
          if (p.write_clones == 0) && is_empty p.buffer
          then failure end_of_file
          else success (read_loop len p.buffer).0))
    × ((bytes : List ℕ)
        → (write write_side p bytes).0
          ≡ (if p.read_clones == 0 then failure end_of_file else success (length bytes)))

IsCounted-Answers : (p : Pipe) → IsCounted p → Answers p
unfolding read write
IsCounted-Answers p k = (
  λ len. rw k.writing (elim (Bool-cases (p.write_clones == 0)) [
    | inl gone ↦
        rw gone (elim (Bool-cases (is_empty p.buffer)) [ inl e ↦ rw e refl | inr e ↦ rw e refl ])
    | inr there ↦ rw there refl
  ]),
  λ bytes. rw k.reading (elim (Bool-cases (p.read_clones == 0)) [
    | inl gone ↦ rw gone refl
    | inr there ↦ rw there refl
  ]),
)

-- After any sequence of calls on a new pipe, each made through a handle that is not closed, a read
-- reports the end of the file exactly where no handle for writing is left and the pipe is empty, and
-- otherwise returns the next bytes; a write reports it exactly where no handle for reading is left,
-- and otherwise takes every byte.
pub run-Answers :
    (cs : List Call) → OnHandles cs create_pipe_pair → Answers (run cs create_pipe_pair).pipe
run-Answers cs h = IsCounted-Answers _ (run-IsCounted cs create_pipe_pair create-IsCounted h)
