-- ===== src/Base.antt =====
-- The names that every module shares: those of the libraries, and those of the child modules.
mod Tests
mod Lists
mod Queues
mod Bytes
mod Maps
mod Results
mod Int
mod Numbers
pub mod Exec
pub use Tests.*
pub use Lists.*
unfoldable pub use Queues.*
unfoldable pub use Bytes.*
unfoldable pub use Maps.*
pub use Results.*
pub use Int.*
unfoldable pub use Numbers.*
pub use Prim.Native.Nat.{ℕ, zero, suc, ◌+◌, ◌-◌, ◌*◌, ◌/◌, ◌%◌, ◌^◌, ◌≤◌, ◌<◌, max, min}
pub use Prim.Native.String.{String}
pub use mathlib.Core.Path.{◌≡◌, refl, sym, ap, ◌∙◌, subst, ◌≡⟨◌⟩◌, ◌∎}
pub use mathlib.Core.Logic.{◌≢◌, ◌↔◌, ◌⊎◌, inl, inr}
pub use mathlib.Core.Bool.{Bool, true, false, not, ◌&&◌, ◌||◌}
pub use mathlib.Core.Option.{Option, none, some}
pub use mathlib.Core.List.{List, [], ◌∷◌, ◌++◌, map, reverse}
pub use native.Mathlib.Omega.{arith}
unfoldable pub use native.Mathlib.Decide.{dec_lt, dec_le, ℕ_discrete}
