-- ===== src/Scheduler/TableExamples.antt =====
-- Open files, a heap and the exit of a child, as in kernel/src/process, and the theorems at them. A file
-- is a number.
use emerald.Prelude.{
  ℕ, suc, ◌+◌, ◌*◌, ◌≡◌, refl, some, List, [], ◌∷◌, true, false, ok, panic, ◌>>=◌, success, arith,
}
use emerald.Memory.Layout.{page_4k, is_aligned}
use emerald.Scheduler.State.{SchedulerProcess}
use emerald.Scheduler.Processor.{System}
use emerald.Scheduler.Files.{
  Files, push_fs_node, attach_fs_node_to_fd, attach_mappings, inherit_one, inherit, finish_stdio,
  spawn_files,
}
use emerald.Scheduler.Descriptors.{
  open_file, close_file, use_file, operate_all, IsFiles, GoUp, operate_all-GoUp,
}
use emerald.Scheduler.UserHeap.{UserHeap, down, map, unmap, add_to_heap, Grows, add_to_heap-Grows}
use emerald.Scheduler.Syscalls.{
  not_blocking, sys_wait_pid, sys_priority, with_process, sys_wait_pid-sys_wait_pid,
}
use emerald.Scheduler.Scripts.{in_user}
use emerald.Scheduler.Examples.{at_gate, runner}

abbrev std : Files ℕ
std = record { open_filesystem_nodes = (0, 10) ∷ (1, 11) ∷ (2, 12) ∷ []; next_id = 3 }

operate_all-GoUp_example :
    (fds : List ℕ) × (s' : Files ℕ) × (operate_all
        (open_file 20 ∷ close_file 3 ∷ use_file 1 suc ∷ open_file 21 ∷ [])
        std
      ≡ ok (fds, s'))
    × IsFiles s'
    × GoUp 3 fds
operate_all-GoUp_example =
    operate_all-GoUp (open_file 20 ∷ close_file 3 ∷ use_file 1 suc ∷ open_file 21 ∷ []) std
      (
        ((omega arith, (omega arith, tt)), ((omega arith, tt), (tt, tt))),
        (omega arith, (omega arith, (omega arith, tt))),
      )
      (omega arith)

opened :
    (operate_all (open_file 20 ∷ close_file 3 ∷ open_file 21 ∷ []) std >>= λ r. ok r.0)
    ≡ ok (3 ∷ 4 ∷ [])
unfolding push_fs_node
opened = refl

abbrev with_extra : Files ℕ
with_extra = record std {
  open_filesystem_nodes = (0, 10) ∷ (1, 11) ∷ (2, 12) ∷ (7, 17) ∷ [];
  next_id = 8;
}

-- A process that is spawned with a file at the descriptor 3, and that inherits the others, gets 3 for its
-- next descriptor: the first file that it opens panics.
abbrev child_files : Files ℕ
child_files = record {
  open_filesystem_nodes = (0, 10) ∷ (1, 11) ∷ (2, 12) ∷ (3, 17) ∷ [];
  next_id = 3;
}

spawn-child_files :
    spawn_files some ((7, 3) ∷ []) with_extra
    ≡ ok (
      some child_files,
      (record with_extra { open_filesystem_nodes = std.open_filesystem_nodes }),
    )
unfolding spawn_files attach_mappings inherit inherit_one attach_fs_node_to_fd finish_stdio
spawn-child_files = refl

child-panics : push_fs_node 30 child_files ≡ panic
unfolding push_fs_node
child-panics = refl

abbrev heap : UserHeap
heap = record {
  heap_start = 0x20_0000;
  heap_size = 2 * page_4k;
  heap_max = 0x4000_0000;
  requests = map 0x20_0000 (2 * page_4k) ∷ [];
}

abbrev smaller : UserHeap
smaller = record heap {
  heap_size = page_4k;
  requests = unmap (0x20_0000 + page_4k) page_4k ∷ heap.requests;
}

add_to_heap-Grows_example : Grows (down page_4k) heap (some (0x20_0000 + 2 * page_4k), smaller)
unfolding add_to_heap is_aligned
add_to_heap-Grows_example =
    add_to_heap-Grows (down page_4k) heap (omega arith, refl, (omega arith, refl, refl))

abbrev mother : SchedulerProcess
mother = record runner { process = record runner.process { children_exits = (1, 5) ∷ [] } }

abbrev told : System
told = record at_gate {
  scheduler = record at_gate.scheduler { running_waiting_procs = (0, mother) ∷ [] };
}

sys_wait_pid-sys_wait_pid_example :
    (s' : System) × (s'' : System) × (sys_wait_pid 1 true in_user told
      ≡ ok (s', in_user, success 5))
    × (sys_wait_pid 1 false in_user s' ≡ ok (s'', in_user, not_blocking 1 s''.scheduler))
sys_wait_pid-sys_wait_pid_example =
    sys_wait_pid-sys_wait_pid 1 5 true in_user told mother refl refl (tt, tt) refl

-- A priority is asked for a process that is not there.
sys_priority-panics : sys_priority 77 0 at_gate.scheduler ≡ panic
unfolding sys_priority with_process
sys_priority-panics = refl
