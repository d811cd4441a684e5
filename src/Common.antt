-- ===== src/Common.antt =====
-- The names that all modules share: the libraries', passed on, and those of the children: Boolean
-- tests, lists over the native numbers, integers, bits and big-endian bytes.
mod Tests
mod Lists
mod Int
mod Bits
mod Memory
pub use Tests.*
pub use Lists.*
unfoldable pub use Int.*
unfoldable pub use Memory.{splice, zeros, resize}
pub use Memory.{length-splice, get_elem?-splice, length-zeros, length-resize}
unfoldable pub use Bits.{be_u32, all_below}
pub use Bits.{be_u32_bytes, or_fields, byte_or, all_below→, byte_split, mask_five, nibble_or}
pub use Prim.Native.Nat.{ℕ, zero, suc, ◌+◌, ◌-◌, ◌*◌, ◌/◌, ◌%◌, ◌^◌, ◌≤◌, ◌<◌, min, bit_and, bit_or}
pub use mathlib.Core.Path.{◌≡◌, refl, sym, ap, ◌∙◌, subst}
pub use mathlib.Core.Logic.{◌≢◌, ◌↔◌, ◌⊎◌, inl, inr}
pub use mathlib.Core.Bool.{Bool, true, false, true≢false, not, ◌&&◌, ◌||◌}
pub use mathlib.Core.Option.{Option, none, some}
pub use mathlib.Core.List.{List, [], ◌∷◌, ◌++◌, map, append-nil, append_assoc}
pub use native.Mathlib.Omega.{arith}
