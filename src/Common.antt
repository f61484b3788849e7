-- ===== src/Common.antt =====
-- The names that every module of the development shares: those of the library, passed on, and the
-- tests, lists, signed integers and bounded loops of the child modules.
mod Tests
mod Lists
mod Int
mod Loop
pub mod Bits
pub use Tests.*
pub use Lists.{
  length, get_or, set, take, drop, All, List-cases, length-append, length-set, get_or-set_self,
  get_or-set_ne, All-append, append-All, Fresh, Distinct, has, has-append, has-split, has-remove,
  All-remove, All-map, Fresh-remove,
}
unfoldable pub use Lists.{remove}
pub use Int.*
pub use Loop.{
  for_range-zero, for_range-suc, for_range_inv, for_range-fill, for_range-map, for_range-append,
  for_range-shift,
}
unfoldable pub use Loop.{for_range}
pub use Prim.Native.Nat.{ℕ, zero, suc, ◌+◌, ◌-◌, ◌*◌, ◌/◌, ◌%◌, ◌^◌, ◌≤◌, ◌<◌, bit_and, bit_or}
pub use mathlib.Core.Path.{◌≡◌, refl, sym, ap, ◌∙◌, fun_ext}
pub use mathlib.Core.Logic.{◌≢◌, ◌↔◌, ◌⊎◌, inl, inr}
pub use mathlib.Core.Bool.{Bool, true, false, not, ◌&&◌, ◌||◌}
pub use mathlib.Core.Option.{Option, none, some}
pub use mathlib.Core.List.{List, [], ◌∷◌, ◌++◌, map}
pub use native.Mathlib.Omega.{arith}
