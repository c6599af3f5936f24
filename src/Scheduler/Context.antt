-- ===== src/Scheduler/Context.antt =====
-- kernel/src/process/mod.rs and kernel/src/cpu/idt.rs: the registers of a process and those that an
-- interrupt saves; `swap_context` of kernel/src/process/scheduler.rs exchanges them.
use emerald.Prelude.{ℕ, ◌%◌, ◌<◌, ◌≡◌, List, arith}
use emerald.Prelude.Words.{u8_mod}

-- The floating point registers, as `fxsave64` stores them.
abbrev pub FxSave : Type 0
FxSave = List ℕ

pub record ProcessContext : Type 0 where
  pub rflags : ℕ
  pub rip : ℕ
  pub cs : ℕ
  pub ds : ℕ
  pub es : ℕ
  pub fs : ℕ
  pub gs : ℕ
  pub ss : ℕ
  pub dr0 : ℕ
  pub dr1 : ℕ
  pub dr2 : ℕ
  pub dr3 : ℕ
  pub dr6 : ℕ
  pub dr7 : ℕ
  pub rax : ℕ
  pub rbx : ℕ
  pub rcx : ℕ
  pub rdx : ℕ
  pub rsi : ℕ
  pub rdi : ℕ
  pub rsp : ℕ
  pub rbp : ℕ
  pub r8 : ℕ
  pub r9 : ℕ
  pub r10 : ℕ
  pub r11 : ℕ
  pub r12 : ℕ
  pub r13 : ℕ
  pub r14 : ℕ
  pub r15 : ℕ
  pub fxsave : FxSave

-- `cs` and `ss` are bytes.
pub record InterruptStackFrame64 : Type 0 where
  pub rip : ℕ
  pub cs : ℕ
  pub rflags : ℕ
  pub rsp : ℕ
  pub ss : ℕ

pub record RestSavedRegisters : Type 0 where
  pub ds : ℕ
  pub es : ℕ
  pub fs : ℕ
  pub gs : ℕ
  pub dr0 : ℕ
  pub dr1 : ℕ
  pub dr2 : ℕ
  pub dr3 : ℕ
  pub dr6 : ℕ
  pub dr7 : ℕ
  pub rax : ℕ
  pub rbx : ℕ
  pub rcx : ℕ
  pub rdx : ℕ
  pub rsi : ℕ
  pub rdi : ℕ
  pub rbp : ℕ
  pub r8 : ℕ
  pub r9 : ℕ
  pub r10 : ℕ
  pub r11 : ℕ
  pub r12 : ℕ
  pub r13 : ℕ
  pub r14 : ℕ
  pub r15 : ℕ

pub record InterruptAllSavedState : Type 0 where
  pub rest : RestSavedRegisters
  pub number : ℕ
  pub error : ℕ
  pub frame : InterruptStackFrame64

-- What `swap_context` exchanges: the context, the saved state, and the floating point registers.
unfoldable pub swap_context :
    ProcessContext × InterruptAllSavedState × FxSave
    → ProcessContext × InterruptAllSavedState × FxSave
swap_context (context, all_state, fx) = (
  record {
    rflags = all_state.frame.rflags;
    rip = all_state.frame.rip;
    cs = all_state.frame.cs;
    rsp = all_state.frame.rsp;
    ss = all_state.frame.ss;
    ds = all_state.rest.ds;
    es = all_state.rest.es;
    fs = all_state.rest.fs;
    gs = all_state.rest.gs;
    dr0 = all_state.rest.dr0;
    dr1 = all_state.rest.dr1;
    dr2 = all_state.rest.dr2;
    dr3 = all_state.rest.dr3;
    dr6 = all_state.rest.dr6;
    dr7 = all_state.rest.dr7;
    rax = all_state.rest.rax;
    rbx = all_state.rest.rbx;
    rcx = all_state.rest.rcx;
    rdx = all_state.rest.rdx;
    rsi = all_state.rest.rsi;
    rdi = all_state.rest.rdi;
    rbp = all_state.rest.rbp;
    r8 = all_state.rest.r8;
    r9 = all_state.rest.r9;
    r10 = all_state.rest.r10;
    r11 = all_state.rest.r11;
    r12 = all_state.rest.r12;
    r13 = all_state.rest.r13;
    r14 = all_state.rest.r14;
    r15 = all_state.rest.r15;
    fxsave = fx;
  },
  record all_state {
    frame = record {
      rip = context.rip;
      cs = context.cs % u8_mod;
      rflags = context.rflags;
      rsp = context.rsp;
      ss = context.ss % u8_mod;
    };
    rest = record {
      ds = context.ds;
      es = context.es;
      fs = context.fs;
      gs = context.gs;
      dr0 = context.dr0;
      dr1 = context.dr1;
      dr2 = context.dr2;
      dr3 = context.dr3;
      dr6 = context.dr6;
      dr7 = context.dr7;
      rax = context.rax;
      rbx = context.rbx;
      rcx = context.rcx;
      rdx = context.rdx;
      rsi = context.rsi;
      rdi = context.rdi;
      rbp = context.rbp;
      r8 = context.r8;
      r9 = context.r9;
      r10 = context.r10;
      r11 = context.r11;
      r12 = context.r12;
      r13 = context.r13;
      r14 = context.r14;
      r15 = context.r15;
    };
  },
  context.fxsave,
)

-- The selectors of a context fit the bytes that the processor saves; those of a frame are bytes.
abbrev pub FitsFrame : ProcessContext → Type 0
FitsFrame c = (c.cs < u8_mod) × (c.ss < u8_mod)

abbrev pub IsFrame : InterruptStackFrame64 → Type 0
IsFrame f = (f.cs < u8_mod) × (f.ss < u8_mod)

pub mod_lt : (n : ℕ) → n < u8_mod → n % u8_mod ≡ n
mod_lt n h = omega (arith, h)

-- Two exchanges bring back the context, the saved state and the floating point registers, where the
-- selectors are bytes.
pub swap_context-swap_context :
    (c : ProcessContext) (a : InterruptAllSavedState) (fx : FxSave)
    → FitsFrame c
    → IsFrame a.frame
    → swap_context (swap_context (c, a, fx)) ≡ (c, a, fx)
unfolding swap_context
swap_context-swap_context c a fx (hc, hs) (hfc, hfs) = λ i. (
  record c { cs = mod_lt c.cs hc i; ss = mod_lt c.ss hs i },
  record a {
    frame = record a.frame { cs = mod_lt a.frame.cs hfc i; ss = mod_lt a.frame.ss hfs i };
  },
  fx,
)
