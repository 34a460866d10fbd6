-- ===== src/Prelude.antt =====
-- The names that the other modules share: the libraries', passed on, and those of the children.
mod Tests
mod Bytes
mod Maps
mod Lists
pub mod Decimal
pub mod Actions
pub mod Integers
pub use Tests.*
pub use Prim.Native.Nat.{ℕ, zero, suc, ◌+◌, ◌-◌, ◌*◌, ◌/◌, ◌%◌, ◌^◌, ◌≤◌, ◌<◌, min}
pub use mathlib.Core.Path.{◌≡◌, refl, sym, ap, ◌∙◌}
pub use mathlib.Core.Logic.{◌≢◌, ◌↔◌, ◌⊎◌, inl, inr}
pub use mathlib.Core.Bool.{Bool, true, false, not, ◌&&◌, ◌||◌}
pub use mathlib.Core.Option.{Option, none, some}
pub use mathlib.Core.List.{List, [], ◌∷◌, ◌++◌, map}
pub use native.Mathlib.Omega.{arith}
unfoldable pub use native.Mathlib.Decide.{dec_lt}
pub use Bytes.{Text, eq_of_==, ==-refl, ==_iff, append_cancel}
unfoldable pub use Bytes.{text, ◌==◌, starts_with}
pub use Maps.{
  Dict, is_some, contains, lookup-insert, lookup-remove, lookup-insert_self, or_default, entries,
  lookup_in-insert_in, lookup_in-remove_in, lookup_in-remove_within,
}
unfoldable pub use Maps.{lookup, insert, remove, lookup_in, insert_in, remove_in, remove_within}
pub use Lists.{
  length, get_elem?, set, replicate, drop, take, find, any, filter, length-append, length-replicate,
  length-drop, get_elem?-append_left, get_elem?-append_last, member-add_member,
}
unfoldable pub use Lists.{member, add_member}
