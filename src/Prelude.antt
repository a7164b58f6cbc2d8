-- ===== src/Prelude.antt =====
-- The names that the other modules share: the libraries', passed on, and those of the children.
mod Tests
mod Lists
mod Results
mod Collecting
pub mod Maybe
pub use Tests.*
pub use Lists.{
  length, take, drop, length-append, take-length-append, drop-length-append, take-append-drop,
  drop-drop, List-cases, any, All, All-append, Any, any_iff, Any-map, Any-proof, filter, filter_map,
  flat_map, Eq, nat_eq, bytes_eq, str_eq_iff, str_eq_refl,
}
unfoldable pub use Lists.{str_eq}
pub use Results.*
pub use Collecting.{collect-All, collect-Any}
pub use Prim.Native.Nat.{ℕ, zero, suc, ◌+◌, ◌-◌, ◌*◌, ◌/◌, ◌%◌, ◌^◌, ◌≤◌, ◌<◌, min}
pub use mathlib.Core.Path.{◌≡◌, refl, sym, ap, ◌∙◌}
pub use mathlib.Core.Logic.{◌≢◌, ◌↔◌, ◌⊎◌, inl, inr}
pub use mathlib.Core.Bool.{Bool, true, false, not, ◌&&◌, ◌||◌}
pub use mathlib.Core.Option.{Option, none, some}
pub use mathlib.Core.List.{List, [], ◌∷◌, ◌++◌, map}
pub use native.Mathlib.Omega.{arith}
