-- ===== src/Common.antt =====
-- What the other modules share: the libraries' names, Boolean tests, lists with native indices,
-- machine words, and the facts on bit masks and powers of two that the sources' shifts rely on.
mod Booleans
mod Lists
mod Words
mod Results
mod Bags
mod UnorderedMap
pub use Booleans.*
pub use Lists.*
unfoldable pub use Words.*
pub use Results.*
pub use Bags.*
pub use UnorderedMap.*
pub use Prim.Native.Nat.{ℕ, zero, suc, ◌+◌, ◌-◌, ◌*◌, ◌/◌, ◌%◌, ◌^◌, ◌≤◌, ◌<◌, min, bit_and}
pub use mathlib.Core.Path.{◌≡◌, refl, sym, ap, ap₂, subst, ◌∙◌, fun_ext}
pub use mathlib.Core.Logic.{◌≢◌, ◌↔◌, ◌⊎◌, inl, inr}
pub use mathlib.Core.Bool.{Bool, true, false, not, ◌&&◌, ◌||◌}
pub use mathlib.Core.Option.{Option, none, some}
pub use mathlib.Core.List.{List, [], ◌∷◌, ◌++◌, map, append-nil, append_assoc}
pub use native.Mathlib.Omega.{arith}
