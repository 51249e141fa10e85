-- ===== src/Common.antt =====
-- The names that the modules of the development share: the libraries', passed on, and those of
-- four children: Boolean tests on numbers, lists measured by native numbers, Go's maps, and the
-- search for a map's oldest entry.
mod Tests
mod Lists
mod Dict
mod Oldest
pub use Tests.*
pub use Lists.*
unfoldable pub use Dict.{lookup, insert, delete, sweep}
pub use Dict.{
  IsDistinct, lookup-insert, lookup-delete, length-delete-le, length-delete-lt, length-insert_new,
  length-insert_old, length-insert-le, delete_absent, delete-IsDistinct, insert-IsDistinct, keep_if,
  lookup-sweep, length-sweep-le, sweep-IsDistinct,
}
unfoldable pub use Oldest.{oldest}
pub use Oldest.{
  older, any_eligible, IsNamed, oldest-found, oldest-source, oldest-min, oldest-present,
}
pub use Prim.Native.Nat.{ℕ, zero, suc, ◌+◌, ◌-◌, ◌*◌, ◌/◌, ◌%◌, ◌^◌, ◌≤◌, ◌<◌, min, max}
pub use Prim.Native.String.{String}
pub use mathlib.Core.Path.{◌≡◌, refl, sym, ap, ◌∙◌}
pub use mathlib.Core.Logic.{◌≢◌, ◌↔◌, ◌⊎◌, inl, inr}
pub use mathlib.Core.Bool.{Bool, true, false, ◌&&◌, ◌||◌, not}
pub use mathlib.Core.Option.{Option, none, some}
pub use mathlib.Core.List.{List, [], ◌∷◌, ◌++◌, map}
pub use native.Mathlib.Omega.{arith}
pub use text.Mathlib.Text.{◌==◌ as str_eq}
pub use text.Mathlib.TextEquality.{eq_iff}
