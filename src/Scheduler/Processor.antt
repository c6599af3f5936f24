-- ===== src/Scheduler/Processor.antt =====
-- kernel/src/cpu/mod.rs and kernel/src/process/scheduler.rs: the processor and the scheduler on it.
use emerald.Prelude.{
  ℕ, suc, ◌-◌, Option, List, [], ◌∷◌, Bool, true, false, not, ◌&&◌, Outcome, ok, ◌>>◌, ensure, ltb,
  ◌==◌, if◌then◌else◌,
}
use emerald.Prelude.Words.{u64_mod}
use emerald.Scheduler.Context.{FxSave, ProcessContext}
use emerald.Scheduler.Process.{is_none}
use emerald.Scheduler.State.{Scheduler}

-- `interrupts` and `fxsave` are the flag and the floating point registers of the processor.
pub record Cpu : Type 0 where
  pub old_interrupt_enable : Bool
  pub n_cli : ℕ
  pub context : Option ProcessContext
  pub process_id : ℕ
  pub scheduling : Bool
  pub interrupts : Bool
  pub fxsave : FxSave

pub record System : Type 0 where
  pub scheduler : Scheduler
  pub shutdown : Bool
  pub cpu : Cpu

unfoldable pub push_cli : Cpu → Outcome Cpu
push_cli c =
    ensure (ltb c.n_cli (u64_mod - 1))
    >> (if c.n_cli == 0
        then ok (record c { old_interrupt_enable = c.interrupts; interrupts = false; n_cli = 1 })
        else ensure (not c.interrupts) >> ok (record c { n_cli = suc c.n_cli }))

unfoldable pub pop_cli : Cpu → Outcome Cpu
pop_cli c =
    ensure (ltb 0 c.n_cli)
    >> ensure (not c.interrupts)
    >> ok (record c {
      n_cli = c.n_cli - 1;
      interrupts = (c.n_cli - 1 == 0) && c.old_interrupt_enable;
    })

abbrev pub is_empty {ℓ} : {A : Type ℓ} → List A → Bool
is_empty [] = true
is_empty (x ∷ xs) = false

abbrev pub is_some {ℓ} : {A : Type ℓ} → Option A → Bool
is_some o = not (is_none o)
