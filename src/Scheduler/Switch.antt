-- ===== src/Scheduler/Switch.antt =====
-- kernel/src/process/scheduler.rs: a process is entered and left with the registers that each side had.
use emerald.Prelude.{
  ℕ, zero, suc, ◌-◌, ◌%◌, ◌≡◌, refl, sym, ap, ◌∙◌, none, some, ◌∷◌, Bool, true, false, not, ◌||◌,
  ok, bind-ok, ensure-ok, ltb, ◌==◌, if◌then◌else◌, arith,
}
use mathlib.Core.Bool.{false≢true}
use emerald.Prelude.Words.{u64_mod}
use emerald.Scheduler.Context.{
  FxSave, ProcessContext, InterruptAllSavedState, swap_context, IsFrame, FitsFrame, mod_lt,
}
use emerald.Scheduler.Process.{get_mut, is_none, remove}
use emerald.Scheduler.State.{SchedulerProcess, Scheduler, scheduled, is_running, reschedule_process}
use emerald.Scheduler.Processor.{Cpu, System, push_cli, pop_cli, is_some}
use emerald.Scheduler.Calls.{
  get_current, leave, swap_with, scheduler_interrupt_handler, yield_current_if_any, save_context,
  without_current,
}

-- `push_cli` may be called: the count does not overflow, and the interrupts are off if it is not 0.
abbrev pub CanPush : Cpu → Type 0
CanPush c = (ltb c.n_cli (u64_mod - 1) ≡ true) × (((c.n_cli == 0) || not c.interrupts) ≡ true)

abbrev pub pushed : Cpu → Cpu
pushed c = record c {
  old_interrupt_enable = if c.n_cli == 0 then c.interrupts else c.old_interrupt_enable;
  interrupts = false;
  n_cli = suc c.n_cli;
}

suc-nonzero : (n : ℕ) → (suc n == 0) ≡ false
suc-nonzero n = ground arith

suc-positive : (n : ℕ) → ltb 0 (suc n) ≡ true
suc-positive n = ground arith

count_back : (n : ℕ) → suc (suc n) - 1 ≡ suc n
count_back n = omega arith

still_on : (n : ℕ) → ((suc n == 0) || not true) ≡ true → ⊥
still_on n h = false≢true (sym (λ i. suc-nonzero n i || false) ∙ h)

pub push_cli-pushed : (c : Cpu) → CanPush c → push_cli c ≡ ok (pushed c)
unfolding push_cli
push_cli-pushed c (room, off) = go c.n_cli c.interrupts room off
  where
    go :
        (n : ℕ) (i : Bool)
        → ltb n (u64_mod - 1) ≡ true
        → ((n == 0) || not i) ≡ true
        → push_cli (record c { n_cli = n; interrupts = i })
          ≡ ok (pushed (record c { n_cli = n; interrupts = i }))
    go zero i room off = refl
    go (suc n) false room off = rw (room, suc-nonzero n) refl
    go (suc n) true room off = absurd (still_on n off)

-- Between a pair of calls, the processor may change into `d`.
abbrev pub between : Cpu → Cpu → Cpu
between c d = record d {
  old_interrupt_enable = (pushed c).old_interrupt_enable;
  n_cli = suc c.n_cli;
  interrupts = false;
}

-- The pair brings back the count and the interrupts.
abbrev pub popped : Cpu → Cpu → Cpu
popped c d = record d {
  old_interrupt_enable = (pushed c).old_interrupt_enable;
  n_cli = c.n_cli;
  interrupts = c.interrupts;
}

pub pop_cli-popped : (c d : Cpu) → CanPush c → pop_cli (between c d) ≡ ok (popped c d)
unfolding pop_cli
pop_cli-popped c d (room, off) = go c.n_cli c.interrupts off
  where
    go :
        (n : ℕ) (i : Bool)
        → ((n == 0) || not i) ≡ true
        → let c' = record c { n_cli = n; interrupts = i } in
          pop_cli (between c' d) ≡ ok (popped c' d)
    go zero i off = refl
    go (suc n) false off =
        rw (suc-nonzero n, suc-positive (suc n), count_back n, suc-nonzero n) refl
    go (suc n) true off = absurd (still_on n off)

pub get_current-some :
    (s : System) (p : SchedulerProcess)
    → get_mut s.cpu.process_id s.scheduler.running_waiting_procs ≡ some p
    → is_running p.state ≡ true
    → get_current s ≡ ok p
get_current-some s p e r = rw (get_current, e) (ensure-ok (is_running p.state) (λ u. ok p) r)

-- The processor without its context, after a call that leaves the process.
abbrev pub left_cpu : Cpu → FxSave → Cpu
left_cpu c fx = popped c (record c { context = none; fxsave = fx })

-- What a call that leaves the process returns: the process goes to `put` with the registers that the
-- interrupt saved, and the registers that the processor kept come back.
pub leave-returns :
    (put : ProcessContext → SchedulerProcess → Scheduler) (a : InterruptAllSavedState) (s : System)
    (before : ProcessContext) (p : SchedulerProcess)
    → CanPush s.cpu
    → s.cpu.context ≡ some before
    → get_mut s.cpu.process_id s.scheduler.running_waiting_procs ≡ some p
    → is_running p.state ≡ true
    → let swapped = swap_context (before, a, s.cpu.fxsave) in
      leave put a s
      ≡ ok (record s { scheduler = put swapped.0 p; cpu = left_cpu s.cpu swapped.2 }, swapped.1)
unfolding leave
leave-returns put a s before p can on found r =
    let swapped = swap_context (before, a, s.cpu.fxsave) in
    bind-ok (push_cli s.cpu) (pushed s.cpu) _ (push_cli-pushed s.cpu can)
    ∙ bind-ok (get_current s) p _ (get_current-some s p found r)
    ∙ bind-ok (swap_with s.cpu.context (pushed s.cpu) a)
        (swapped.0, record (pushed s.cpu) { fxsave = swapped.2 }, swapped.1) _
        (ap (λ o. swap_with o (pushed s.cpu) a) on)
    ∙ bind-ok _ (left_cpu s.cpu swapped.2) _
        (pop_cli-popped s.cpu (record s.cpu { context = none; fxsave = swapped.2 }) can)

pub scheduler_interrupt_handler-returns :
    (s : System) (k : InterruptAllSavedState) (c : ProcessContext)
    → s.cpu.context ≡ some c
    → s.cpu.scheduling ≡ true
    → s.cpu.interrupts ≡ false
    → (k.frame.cs % 4 == 0) ≡ true
    → let swapped = swap_context (c, k, s.cpu.fxsave) in
      scheduler_interrupt_handler k s
      ≡ ok (
        record s {
          cpu = record s.cpu { scheduling = false; fxsave = swapped.2; context = some swapped.0 };
        },
        swapped.1,
      )
unfolding scheduler_interrupt_handler
scheduler_interrupt_handler-returns s k c on sched off kernel =
    let swapped = swap_context (c, k, s.cpu.fxsave) in
    let cpu = record s.cpu { scheduling = false } in
    ensure-ok (k.frame.cs % 4 == 0) _ kernel
    ∙ ensure-ok (is_some s.cpu.context) _ (ap is_some on)
    ∙ ensure-ok s.cpu.scheduling _ sched
    ∙ ensure-ok (not s.cpu.interrupts) _ (ap not off)
    ∙ bind-ok (swap_with s.cpu.context cpu k)
        (swapped.0, record cpu { fxsave = swapped.2 }, swapped.1) _ (ap (λ o. swap_with o cpu k) on)

abbrev put_yielded : System → ProcessContext → SchedulerProcess → Scheduler
put_yielded s context p =
    reschedule_process s.shutdown (record p { process = save_context context p.process })
      (without_current s)

yield-leave :
    (a : InterruptAllSavedState) (s : System) (c : ProcessContext)
    → s.cpu.context ≡ some c
    → s.cpu.scheduling ≡ false
    → yield_current_if_any a s ≡ leave (put_yielded s) a s
unfolding yield_current_if_any
yield-leave a s c on sched =
    ap (λ b. if b then ok (s, a) else leave (put_yielded s) a s) (λ i. is_none (on i) || sched i)

or_true : (b : Bool) → (b || true) ≡ true
or_true true = refl
or_true false = refl

-- Each register of a context is that of a saved state, and its floating point registers are `fx`.
abbrev pub SameRegisters : ProcessContext → InterruptAllSavedState → FxSave → Type 0
SameRegisters c a fx =
    (c.rflags ≡ a.frame.rflags)
    × (c.rip ≡ a.frame.rip)
    × (c.cs ≡ a.frame.cs)
    × (c.rsp ≡ a.frame.rsp)
    × (c.ss ≡ a.frame.ss)
    × (c.ds ≡ a.rest.ds)
    × (c.es ≡ a.rest.es)
    × (c.fs ≡ a.rest.fs)
    × (c.gs ≡ a.rest.gs)
    × (c.dr0 ≡ a.rest.dr0)
    × (c.dr1 ≡ a.rest.dr1)
    × (c.dr2 ≡ a.rest.dr2)
    × (c.dr3 ≡ a.rest.dr3)
    × (c.dr6 ≡ a.rest.dr6)
    × (c.dr7 ≡ a.rest.dr7)
    × (c.rax ≡ a.rest.rax)
    × (c.rbx ≡ a.rest.rbx)
    × (c.rcx ≡ a.rest.rcx)
    × (c.rdx ≡ a.rest.rdx)
    × (c.rsi ≡ a.rest.rsi)
    × (c.rdi ≡ a.rest.rdi)
    × (c.rbp ≡ a.rest.rbp)
    × (c.r8 ≡ a.rest.r8)
    × (c.r9 ≡ a.rest.r9)
    × (c.r10 ≡ a.rest.r10)
    × (c.r11 ≡ a.rest.r11)
    × (c.r12 ≡ a.rest.r12)
    × (c.r13 ≡ a.rest.r13)
    × (c.r14 ≡ a.rest.r14)
    × (c.r15 ≡ a.rest.r15)
    × (c.fxsave ≡ fx)

module _ (s : System) (k a : InterruptAllSavedState) (fx : FxSave) (c : ProcessContext)
    (p : SchedulerProcess) where
  -- The processor, as the process leaves it: in the kernel's registers, `k`, it entered the process,
  -- which ran until an interrupt saved the registers `a`, with `fx` for floating point.
  abbrev pub at_interrupt : System → System
  at_interrupt s₁ = record s₁ { cpu = record s₁.cpu { interrupts = false; fxsave = fx } }

  -- The process as it goes to the heap: to be scheduled, with the greatest counter, with nothing
  -- changed but the context, which has the registers that the process yielded from.
  abbrev pub IsSaved : SchedulerProcess → Type 0
  IsSaved saved =
      SameRegisters saved.process.context a fx
      × (saved.process ≡ record p.process { context = saved.process.context })
      × (saved.state ≡ scheduled)
      × (saved.priority_counter ≡ s.scheduler.max_priority)

  -- A scheduler that is not shutting down enters the current process from the kernel's registers `k`,
  -- with the interrupts off. The processor then has each register of the context of the process. When
  -- the process later yields, from any registers `a` and `fx`, the call returns: the processor goes
  -- back to the registers `k`, the floating point ones included. The process is no longer among those
  -- that run or wait; it is in the heap, to be scheduled, beside those that were there, and each
  -- register of its context is the one that it yielded from. The selectors are bytes.
  pub enter-yield :
      CanPush s.cpu
      → s.shutdown ≡ false
      → s.cpu.context ≡ some c
      → s.cpu.scheduling ≡ true
      → s.cpu.interrupts ≡ false
      → (k.frame.cs % 4 == 0) ≡ true
      → IsFrame k.frame
      → FitsFrame c
      → get_mut s.cpu.process_id s.scheduler.running_waiting_procs ≡ some p
      → is_running p.state ≡ true
      → (s₁ : System) × (b : InterruptAllSavedState) × (s₂ : System) × (saved : SchedulerProcess)
        × (scheduler_interrupt_handler k s ≡ ok (s₁, b))
        × SameRegisters c b s₁.cpu.fxsave
        × (yield_current_if_any a (at_interrupt s₁)
            ≡ ok (s₂, record a { frame = k.frame; rest = k.rest }))
        × (s₂.cpu.fxsave ≡ s.cpu.fxsave)
        × (s₂.cpu.context ≡ none)
        × IsSaved saved
        × (s₂.scheduler ≡ record s.scheduler {
          scheduled_processes = saved ∷ s.scheduler.scheduled_processes;
          running_waiting_procs = remove s.cpu.process_id s.scheduler.running_waiting_procs;
        })
  unfolding swap_context reschedule_process
  enter-yield can up on sched off kernel frame fits found r =
      let swapped = swap_context (c, k, s.cpu.fxsave) in
      let cpu' = record s.cpu {
        scheduling = false;
        fxsave = swapped.2;
        context = some swapped.0;
      } in
      let s₁ = record s { cpu = cpu' } in
      let context = (swap_context (swapped.0, a, fx)).0 in
      let left =
        leave-returns (put_yielded (at_interrupt s₁)) a (at_interrupt s₁) swapped.0 p
          (can.0, or_true (s.cpu.n_cli == 0)) refl found r in
      let s₂ = record s {
        scheduler = put_yielded (at_interrupt s₁) context p;
        cpu = left_cpu (at_interrupt s₁).cpu s.cpu.fxsave;
      } in
      let saved = record p {
        process = save_context context p.process;
        priority_counter = s.scheduler.max_priority;
        state = scheduled;
      } in
      (
        s₁,
        swapped.1,
        s₂,
        saved,
        scheduler_interrupt_handler-returns s k c on sched off kernel,
        (
          refl,
          refl,
          sym (mod_lt c.cs fits.0),
          refl,
          sym (mod_lt c.ss fits.1),
          refl,
          refl,
          refl,
          refl,
          refl,
          refl,
          refl,
          refl,
          refl,
          refl,
          refl,
          refl,
          refl,
          refl,
          refl,
          refl,
          refl,
          refl,
          refl,
          refl,
          refl,
          refl,
          refl,
          refl,
          refl,
          refl,
        ),
        yield-leave a (at_interrupt s₁) swapped.0 refl refl ∙ left ∙ (λ i. ok (
          s₂,
          record a {
            frame = record k.frame {
              cs = mod_lt k.frame.cs frame.0 i;
              ss = mod_lt k.frame.ss frame.1 i;
            };
            rest = k.rest;
          },
        )),
        refl,
        refl,
        (
          (
            refl, refl, refl, refl, refl, refl, refl, refl, refl, refl, refl, refl, refl, refl,
            refl, refl, refl, refl, refl, refl, refl, refl, refl, refl, refl, refl, refl, refl,
            refl, refl, refl,
          ),
          refl,
          refl,
          refl,
        ),
        ap
            (λ b.
              reschedule_process b (record p { process = save_context context p.process })
                (without_current s))
            up,
      )
