-- ===== src/Prelude.antt =====
-- Shared names: the libraries', passed on, and the project's helpers on tests, lists and outcomes.
pub mod Tests
mod Lists
mod Outcomes
pub mod Words
pub use Tests.*
pub use Lists.*
pub use Outcomes.{
  Outcome, ok, panic, undefined, ◌>>=◌, ◌>>◌, ensure, Result, success, failure, Post, Post-bind,
  Post-map, Post-both, ensure-Post, bind-ok, ensure-ok, ensure-panic, ensure_any,
}
pub use Prim.Native.Nat.{ℕ, zero, suc, ◌+◌, ◌-◌, ◌*◌, ◌/◌, ◌%◌, ◌^◌, ◌≤◌, ◌<◌, min, max}
pub use mathlib.Core.Path.{◌≡◌, refl, sym, ap, ap₂, ◌∙◌}
pub use mathlib.Core.Logic.{◌≢◌, ◌↔◌, ◌⊎◌, inl, inr}
pub use mathlib.Core.Bool.{Bool, true, false, ◌&&◌, ◌||◌, not}
pub use mathlib.Core.Option.{Option, none, some}
pub use mathlib.Core.List.{List, [], ◌∷◌, ◌++◌, map, append-nil, append_assoc}
pub use native.Mathlib.Omega.{arith}
unfoldable pub use native.Mathlib.Decide.{dec_lt, ℕ_discrete}
