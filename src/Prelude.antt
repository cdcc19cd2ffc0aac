-- ===== src/Prelude.antt =====
-- The names that the modules share: the libraries', passed on, and those of the children.
mod Tests
mod Lists
mod Texts
mod Results
mod Ints
mod Sort
pub use Tests.*
pub use Lists.*
unfoldable pub use Lists.{lookup}
pub use Texts.{Text, codes, onto_first, text_eq_iff, text_eq_refl}
unfoldable pub use Texts.{
  text_eq, contains_char, decimal, hex4, hex2, is_space, is_printable, keep, lstrip, rstrip, strip,
  split_on, partition,
}
pub use Results.*
pub use Ints.{ℤ, pos, negsuc, negate}
unfoldable pub use Ints.{is_digit, int_digits, signed_int, parse_int}
unfoldable pub use Sort.{insert_by, sort_by, text_leb, sort_texts, join}
pub use Sort.{IsSortedFrom, IsSorted, sort_by-Perm, sort_by-IsSorted, text_leb_total}
pub use Prim.Native.Nat.{ℕ, zero, suc, ◌+◌, ◌-◌, ◌*◌, ◌/◌, ◌%◌, ◌^◌, ◌≤◌, ◌<◌, min}
pub use mathlib.Core.Path.{◌≡◌, refl, sym, ap, ◌∙◌, ◌≡⟨◌⟩◌, ◌∎}
pub use mathlib.Core.Logic.{◌≢◌, ◌↔◌, ◌⊎◌, inl, inr}
pub use mathlib.Core.Bool.{Bool, true, false, not, ◌&&◌, ◌||◌}
pub use mathlib.Core.Option.{Option, none, some}
pub use mathlib.Core.List.{List, [], ◌∷◌, ◌++◌, map, append-nil, append_assoc}
pub use native.Mathlib.Omega.{arith}
