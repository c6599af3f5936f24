-- ===== src/Scheduler/Scripts.antt =====
-- A parent and its child on the scheduler of kernel/src/process/scheduler.rs.
use emerald.Prelude.{ℕ, none, List, [], ◌∷◌, true, false, Outcome, ok, panic, undefined}
use emerald.Clock.Time.{ClockTime}
use emerald.Scheduler.Context.{ProcessContext, InterruptAllSavedState}
use emerald.Scheduler.Process.{Process, normal, high}
use emerald.Scheduler.State.{new}
use emerald.Scheduler.Processor.{System}
use emerald.Scheduler.Calls.{Event, push, pass, interrupt, enter_process, exit_with, wait_for, run}

abbrev pub context : ℕ → ProcessContext
context rip = record {
  rflags = 0;
  rip = rip;
  cs = 27;
  ds = 0;
  es = 0;
  fs = 0;
  gs = 0;
  ss = 0;
  dr0 = 0;
  dr1 = 0;
  dr2 = 0;
  dr3 = 0;
  dr6 = 0;
  dr7 = 0;
  rax = 0;
  rbx = 0;
  rcx = 0;
  rdx = 0;
  rsi = 0;
  rdi = 0;
  rsp = 0;
  rbp = 0;
  r8 = 0;
  r9 = 0;
  r10 = 0;
  r11 = 0;
  r12 = 0;
  r13 = 0;
  r14 = 0;
  r15 = 0;
  fxsave = [];
}

abbrev pub saved : ℕ → ℕ → ℕ → InterruptAllSavedState
saved cs rip rax = record {
  number = 0;
  error = 0;
  frame = record { rip = rip; cs = cs; rflags = 512; rsp = 0; ss = 0 };
  rest = record {
    ds = 0;
    es = 0;
    fs = 0;
    gs = 0;
    dr0 = 0;
    dr1 = 0;
    dr2 = 0;
    dr3 = 0;
    dr6 = 0;
    dr7 = 0;
    rax = rax;
    rbx = 0;
    rcx = 0;
    rdx = 0;
    rsi = 0;
    rdi = 0;
    rbp = 0;
    r8 = 0;
    r9 = 0;
    r10 = 0;
    r11 = 0;
    r12 = 0;
    r13 = 0;
    r14 = 0;
    r15 = 0;
  };
}

abbrev pub parent : Process
parent = record {
  context = context 4096;
  id = 0;
  parent_id = 0;
  priority = high;
  exit_code = 0;
  children_exits = [];
}

abbrev pub child : Process
child = record {
  context = context 8192;
  id = 1;
  parent_id = 0;
  priority = normal;
  exit_code = 0;
  children_exits = [];
}

abbrev pub boot : System
boot = record {
  scheduler = new;
  shutdown = false;
  cpu = record {
    old_interrupt_enable = false;
    n_cli = 0;
    context = none;
    process_id = 0;
    scheduling = false;
    interrupts = true;
    fxsave = [];
  };
}

abbrev pub at : ℕ → ClockTime
at seconds = record { nanoseconds = 0; seconds = seconds }

abbrev pub in_kernel : InterruptAllSavedState
in_kernel = saved 8 1048576 0

abbrev pub in_user : InterruptAllSavedState
in_user = saved 27 4100 9

-- The parent runs and waits for the child, which exits with the code 5.
abbrev pub waiting : List Event
waiting =
    push parent
    ∷ push child
    ∷ pass (at 0) 1
    ∷ interrupt false in_kernel enter_process
    ∷ interrupt false in_user (wait_for 1)
    ∷ pass (at 1) 0
    ∷ interrupt false in_kernel enter_process
    ∷ interrupt false in_user (exit_with 5)
    ∷ []

abbrev pub value_of : Outcome System → System
value_of (ok s) = s
value_of panic = boot
value_of undefined = boot

-- The next pass delivers the exit code.
abbrev pub after : System
unfolding run
after = value_of (run waiting boot)
