-- ===== src/Pipe.antt =====
-- kernel/src/devices/pipe.rs: the two sides of a pipe. The deque is a list from its back to its front,
-- the oldest byte first: `push_front` appends and `pop_back` takes the head.
pub mod Stream
pub mod Handles
mod Examples
use emerald.Prelude.{
  ℕ, zero, suc, ◌+◌, ◌-◌, ◌%◌, Bool, true, false, ◌&&◌, not, List, [], ◌∷◌, ◌++◌, Result, success,
  failure, length, ◌==◌, if◌then◌else◌,
}
use emerald.Prelude.Words.{u64_mod}

pub data Side : Type 0 where
  read_side write_side : Side

-- The members of `FileSystemError` that a pipe returns.
pub data PipeError : Type 0 where
  read_not_supported write_not_supported end_of_file : PipeError

-- `InnerPipe`, with the handles on each `PipeSide`.
pub record Pipe : Type 0 where
  pub buffer : List ℕ
  pub read_side_available : Bool
  pub write_side_available : Bool
  pub read_clones : ℕ
  pub write_clones : ℕ

unfoldable pub create_pipe_pair : Pipe
create_pipe_pair = record {
  buffer = [];
  read_side_available = true;
  write_side_available = true;
  read_clones = 1;
  write_clones = 1;
}

abbrev pub is_empty : List ℕ → Bool
is_empty [] = true
is_empty (_ ∷ _) = false

-- The loop of `read` over a slice of a length: the bytes for it, and what is left.
unfoldable pub read_loop : ℕ → List ℕ → List ℕ × List ℕ
read_loop zero buffer = ([], buffer)
read_loop (suc n) [] = ([], [])
read_loop (suc n) (b ∷ buffer) = let (bytes, rest) = read_loop n buffer in (b ∷ bytes, rest)

-- Returns the bytes that it has put into the slice.
unfoldable pub read : Side → Pipe → ℕ → Result PipeError (List ℕ) × Pipe
read write_side p len = (failure read_not_supported, p)
read read_side p len =
    if not p.write_side_available && is_empty p.buffer
    then (failure end_of_file, p)
    else let (bytes, rest) = read_loop len p.buffer in (success bytes, record p { buffer = rest })

-- The loop of `write`.
unfoldable pub write_loop : List ℕ → List ℕ → List ℕ
write_loop buffer [] = buffer
write_loop buffer (b ∷ bytes) = write_loop (buffer ++ (b ∷ [])) bytes

unfoldable pub write : Side → Pipe → List ℕ → Result PipeError ℕ × Pipe
write read_side p bytes = (failure write_not_supported, p)
write write_side p bytes =
    if p.read_side_available
    then (success (length bytes), record p { buffer = write_loop p.buffer bytes })
    else (failure end_of_file, p)

-- Only the last handle on a side closes it; `fetch_sub` wraps.
unfoldable pub close : Side → Pipe → Pipe
close read_side p =
    let p' = record p { read_clones = (p.read_clones + u64_mod - 1) % u64_mod } in
    if p.read_clones == 1 then record p' { read_side_available = false } else p'
close write_side p =
    let p' = record p { write_clones = (p.write_clones + u64_mod - 1) % u64_mod } in
    if p.write_clones == 1 then record p' { write_side_available = false } else p'

unfoldable pub clone_device : Side → Pipe → Pipe
clone_device read_side p = record p { read_clones = (p.read_clones + 1) % u64_mod }
clone_device write_side p = record p { write_clones = (p.write_clones + 1) % u64_mod }
