-- ===== src/Base.antt =====
-- The names that the other modules share: the libraries', passed on, and those of the children.
mod Tests
mod Lists
mod Int
mod Maps
mod Swap
pub use Tests.*
pub use Lists.*
pub use Swap.*
pub use Int.{
  ℤ, pos, negsuc, pos_part, neg_part, ◌≤ℤ◌, int_eq, ltb_ℤ, uint16, uint32, wrap64-pos, residue-lt,
}
unfoldable pub use Int.{◌-ℤ◌, ◌*ℤ◌, quot, residue, wrap64}
pub use Maps.{Map, HasDistinctKeys, insert-HasDistinctKeys, lookup-insert, lookup-insert_self}
pub use Maps.{get_or, lookup-delete, delete-HasDistinctKeys, All-insert, All-lookup}
unfoldable pub use Maps.{lookup, insert, delete}
pub use Prim.Native.Nat.{ℕ, zero, suc, ◌+◌, ◌-◌, ◌*◌, ◌/◌, ◌%◌, ◌^◌, ◌≤◌, ◌<◌}
pub use mathlib.Core.Path.{◌≡◌, refl, sym, ap, ◌∙◌, subst}
pub use mathlib.Core.Logic.{◌≢◌, ◌↔◌, ◌⊎◌, inl, inr}
pub use mathlib.Core.Bool.{Bool, true, false, not, ◌&&◌, ◌||◌}
pub use mathlib.Core.Option.{Option, none, some}
pub use mathlib.Core.List.{List, [], ◌∷◌, ◌++◌, map}
pub use native.Mathlib.Omega.{arith}
