-- ===== src/Pipe/Examples.antt =====
-- A run of kernel/src/devices/pipe.rs, and the theorems at it.
use emerald.Prelude.{true, false, ◌≡◌, refl, List, [], ◌∷◌, arith, failure}
use emerald.Pipe.{
  read_side, write_side, end_of_file, create_pipe_pair, read, read_loop, write, write_loop, close,
  clone_device,
}
use emerald.Pipe.Stream.{Call, reads, writes, closes, clones, call, run, Streams, run-Streams}
use emerald.Pipe.Handles.{OnHandles, Answers, run-Answers}

-- Two writers, one of which closes before the last write.
abbrev calls : List Call
calls =
    clones write_side
    ∷ writes write_side (1 ∷ 2 ∷ 3 ∷ [])
    ∷ reads read_side 2
    ∷ closes write_side
    ∷ writes write_side (4 ∷ [])
    ∷ closes write_side
    ∷ reads read_side 5
    ∷ []

calls-run : run calls create_pipe_pair ≡ record {
  received = 1 ∷ 2 ∷ 3 ∷ 4 ∷ [];
  accepted = 1 ∷ 2 ∷ 3 ∷ 4 ∷ [];
  pipe = record {
    buffer = [];
    read_side_available = true;
    write_side_available = false;
    read_clones = 1;
    write_clones = 0;
  };
}
unfolding run call create_pipe_pair read read_loop write write_loop close clone_device
calls-run = refl

over : (read read_side (run calls create_pipe_pair).pipe 1).0 ≡ failure end_of_file
unfolding run call create_pipe_pair read read_loop write write_loop close clone_device
over = refl

calls-OnHandles : OnHandles calls create_pipe_pair
unfolding run call create_pipe_pair read read_loop write write_loop close clone_device
calls-OnHandles = (
  (omega arith, omega arith),
  (omega arith, (omega arith, (omega arith, (omega arith, (omega arith, (omega arith, tt)))))),
)

run-Streams_example : Streams create_pipe_pair (run calls create_pipe_pair)
run-Streams_example = run-Streams calls create_pipe_pair

run-Answers_example : Answers (run calls create_pipe_pair).pipe
run-Answers_example = run-Answers calls calls-OnHandles
