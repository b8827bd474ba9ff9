-- ===== src/Base.antt =====
-- The names that the other modules share: the libraries', passed on, and those of the children.
mod Tests
mod Lists
mod Int
mod Text
mod Dicts
mod Sort
mod Flat
pub use Tests.*
pub use Lists.*
pub use Int.*
pub use Text.*
pub use Dicts.*
pub use Sort.*
pub use Flat.*
pub use Prim.Native.Nat.{ℕ, zero, suc, ◌+◌, ◌-◌, ◌*◌, ◌/◌, ◌%◌, ◌≤◌, ◌<◌, min, max}
pub use Prim.Native.String.{String}
pub use mathlib.Core.Path.{◌≡◌, refl, sym, ap, ap₂, ◌∙◌, subst}
pub use mathlib.Core.Logic.{◌≢◌, ◌↔◌, ◌⊎◌, inl, inr}
pub use mathlib.Core.Bool.{Bool, true, false, not, ◌&&◌, ◌||◌}
pub use mathlib.Core.Option.{Option, none, some, some-injective}
pub use mathlib.Core.List.{
  List, [], ◌∷◌, ◌++◌, map, foldl, foldl-append, map-append, append-nil, append_assoc,
}
pub use native.Mathlib.Omega.{arith}
unfoldable pub use Int.{◌+ℤ◌, ◌-ℤ◌, ◌*ℤ◌, to_number, to_number_of_optional}
unfoldable pub use Text.{is_space, trim_start, trim_end, trim, starts_with, digit, decimal, pad}
unfoldable pub use Dicts.{lookup, update, group}
unfoldable pub use Sort.{sort}
