-- ===== src/Scheduler/Files.antt =====
-- kernel/src/process/mod.rs: the open files of a process.
use emerald.Prelude.{
  ℕ, suc, ◌%◌, Option, none, some, List, [], ◌∷◌, length, Bool, true, false, Outcome, ok, ◌>>=◌,
  ◌>>◌, ensure, ltb, leb, ◌==◌, if◌then◌else◌,
}
use emerald.Prelude.Words.{u64_mod}
use emerald.Scheduler.Process.{Map, get_mut, insert, remove, is_none}

-- `open_filesystem_nodes`, and the `next_id` of `file_index_allocator`.
pub record Files {ℓ} (A : Type ℓ) : Type ℓ where
  pub open_filesystem_nodes : Map A
  pub next_id : ℕ

module _ {ℓ} {A : Type ℓ} where
  -- `GoingUpAllocator::allocate`: the counter wraps.
  abbrev pub allocate : Files A → ℕ × Files A
  allocate s = (s.next_id, record s { next_id = suc s.next_id % u64_mod })

  unfoldable pub finish_stdio : Files A → Outcome (Files A)
  finish_stdio s =
      ensure (leb 3 (length s.open_filesystem_nodes))
      >> ok (if ltb s.next_id 3 then record s { next_id = 3 } else s)

  abbrev pub put_fs_node : ℕ → A → Files A → Outcome (Files A)
  put_fs_node fd file s =
      ensure (is_none (get_mut fd s.open_filesystem_nodes))
      >> ok (record s { open_filesystem_nodes = insert fd file s.open_filesystem_nodes })

  unfoldable pub push_fs_node : A → Files A → Outcome (ℕ × Files A)
  push_fs_node file s = let (fd, s') = allocate s in put_fs_node fd file s' >>= λ s''. ok (fd, s'')

  -- The result says whether the descriptor was free.
  unfoldable pub attach_fs_node_to_fd : ℕ → A → Files A → Bool × Files A
  attach_fs_node_to_fd fd file s = elim (get_mut fd s.open_filesystem_nodes) [
    | some other ↦ (false, s)
    | none ↦ (
      true,
      record s {
        next_id = suc fd % u64_mod;
        open_filesystem_nodes = insert fd file s.open_filesystem_nodes;
      },
    )
  ]

  abbrev pub take_fs_node : ℕ → Files A → Option A × Files A
  take_fs_node fd s = (
    get_mut fd s.open_filesystem_nodes,
    record s { open_filesystem_nodes = remove fd s.open_filesystem_nodes },
  )

-- The files that `sys_spawn` of kernel/src/process/syscalls/mod.rs hands to a new process. A mapping is
-- a descriptor of the caller and one of the new process; `clone_inherit` copies a file, where it is one.
module _ {A : Type 0} (clone_inherit : A → Option A) where
  abbrev pub has_sources : List (ℕ × ℕ) → Files A → Bool
  has_sources [] s = true
  has_sources ((src, dst) ∷ ms) s =
      let rest = has_sources ms s in
      if is_none (get_mut src s.open_filesystem_nodes) then false else rest

  -- Whether all files were there, the files of the caller, and those of the new process.
  unfoldable pub attach_mappings : List (ℕ × ℕ) → Files A → Files A → Bool × Files A × Files A
  unfolding attach_fs_node_to_fd
  attach_mappings [] s child = (true, s, child)
  attach_mappings ((src, dst) ∷ ms) s child = elim ((take_fs_node src s).0) [
    | none ↦ (false, s, child)
    | some file ↦ attach_mappings ms (take_fs_node src s).1 (attach_fs_node_to_fd dst file child).1
  ]

  abbrev pub std_needed : ℕ → List (ℕ × ℕ) → Bool
  std_needed fd [] = true
  std_needed fd ((src, dst) ∷ ms) = let rest = std_needed fd ms in if dst == fd then false else rest

  unfoldable pub inherit_one : ℕ → Files A → Files A → Option (Files A)
  unfolding attach_fs_node_to_fd
  inherit_one fd s child = elim (get_mut fd s.open_filesystem_nodes) [
    | none ↦ none
    | some file ↦ elim (clone_inherit file) [
      | none ↦ none
      | some copy ↦ some (attach_fs_node_to_fd fd copy child).1
    ]
  ]

  unfoldable pub inherit : List ℕ → List (ℕ × ℕ) → Files A → Files A → Option (Files A)
  unfolding inherit_one
  inherit [] ms s child = some child
  inherit (fd ∷ fds) ms s child =
      elim (if std_needed fd ms then inherit_one fd s child else some child) [
        | none ↦ none
        | some child' ↦ inherit fds ms s child'
      ]

  abbrev pub no_files : Files A
  no_files = record { open_filesystem_nodes = []; next_id = 0 }

  -- The files of the new process, or none where the call fails, and those of the caller.
  unfoldable pub spawn_files : List (ℕ × ℕ) → Files A → Outcome (Option (Files A) × Files A)
  unfolding attach_mappings inherit finish_stdio
  spawn_files ms s =
      if has_sources ms s
      then (let (found, s', child) = attach_mappings ms s no_files in
          if found
          then elim (inherit (0 ∷ 1 ∷ 2 ∷ []) ms s' child) [
            | none ↦ ok (none, s')
            | some child' ↦ finish_stdio child' >>= λ child''. ok (some child'', s')
          ]
          else ok (none, s'))
      else ok (none, s)
