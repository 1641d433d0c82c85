-- ===== src/Prelude.antt =====
-- The names that the other modules share: the libraries', passed on, and those of the children.
mod Tests
mod Maps
mod Lists
pub mod Results
pub mod Ranks
pub mod Entries
pub use Tests.*
pub use Lists.*
unfoldable pub use Tests.{wrapping_add, wrapping_sub}
pub use Maps.{
  is_some, unwrap_or, Map, contains_key, lookup-insert, lookup-remove, lookup-retain,
  contains-set_insert, contains-set_remove,
}
unfoldable pub use Maps.{lookup, insert, remove, retain, set_contains, set_insert, set_remove}
pub use Prim.Native.Nat.{ℕ, zero, suc, ◌+◌, ◌-◌, ◌*◌, ◌/◌, ◌%◌, ◌^◌, ◌≤◌, ◌<◌, max}
pub use mathlib.Core.Path.{◌≡◌, refl, sym, ap, ◌∙◌}
pub use mathlib.Core.Logic.{◌≢◌, ◌↔◌, ◌⊎◌, inl, inr}
pub use mathlib.Core.Bool.{Bool, true, false, not, ◌&&◌, ◌||◌}
pub use mathlib.Core.Option.{Option, none, some}
pub use mathlib.Core.List.{List, [], ◌∷◌, ◌++◌, map, foldl}
pub use native.Mathlib.Omega.{arith}
