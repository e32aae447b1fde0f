-- ===== src/Common/Locale.antt =====
-- The string operations whose tables belong to the engine: case mapping and `localeCompare`.
-- They are a parameter of what uses them, with what the language documents: on ASCII the case
-- mappings are the usual ones, letter by letter, and `localeCompare` is a total preorder.
use Prim.Native.Nat.{Ordering, compare}
use dymension_rollapp_block.Common.Tests.{if◌then◌else◌}
use dymension_rollapp_block.Common.Lists.{All}
use dymension_rollapp_block.Common.Text.{Str, is_lower, is_upper}
use Prim.Native.Nat.{ℕ, ◌+◌, ◌-◌, ◌<◌}
use mathlib.Core.Path.{◌≡◌, refl}
use mathlib.Core.Logic.{◌≢◌}
use mathlib.Core.List.{[], ◌∷◌, map}
use native.Mathlib.Omega.{arith}

abbrev pub ascii_lower : ℕ → ℕ
ascii_lower c = if is_upper c then c + 32 else c

abbrev pub ascii_upper : ℕ → ℕ
ascii_upper c = if is_lower c then c - 32 else c

abbrev pub IsAscii : Str → Type 0
IsAscii s = All (λ c. c < 128) s

pub record Locale : Type 0 where
  pub to_lower_case : Str → Str
  pub to_upper_case : Str → Str
  pub locale_compare : Str → Str → Ordering
  pub lower_ascii : (s : Str) → IsAscii s → to_lower_case s ≡ map ascii_lower s
  pub upper_ascii : (s : Str) → IsAscii s → to_upper_case s ≡ map ascii_upper s
  pub compare_total :
      (s t : Str) → locale_compare s t ≡ Ordering.gt → locale_compare t s ≢ Ordering.gt
  pub compare_trans :
      (s t u : Str)
      → locale_compare s t ≢ Ordering.gt
      → locale_compare t u ≢ Ordering.gt
      → locale_compare s u ≢ Ordering.gt

-- A locale that maps ASCII letters alone and compares by code units shows that the laws can hold.
unfoldable pub compare_units : Str → Str → Ordering
compare_units [] [] = Ordering.eq
compare_units [] (d ∷ t) = Ordering.lt
compare_units (c ∷ s) [] = Ordering.gt
compare_units (c ∷ s) (d ∷ t) = elim (compare c d) [
  | Ordering.eq ↦ compare_units s t
  | Ordering.lt ↦ Ordering.lt
  | Ordering.gt ↦ Ordering.gt
]

pub units_total : (s t : Str) → compare_units s t ≡ Ordering.gt → compare_units t s ≢ Ordering.gt
unfolding compare_units
units_total [] [] h = ground arith
units_total [] (d ∷ t) h = ground arith
units_total (c ∷ s) [] h = ground arith
units_total (c ∷ s) (d ∷ t) h = ground (arith, units_total s t)

pub units_trans :
    (s t u : Str)
    → compare_units s t ≢ Ordering.gt
    → compare_units t u ≢ Ordering.gt
    → compare_units s u ≢ Ordering.gt
unfolding compare_units
units_trans [] t [] h k = ground arith
units_trans [] t (e ∷ u) h k = ground arith
units_trans (c ∷ s) [] u h k = ground arith
units_trans (c ∷ s) (d ∷ t) [] h k = ground arith
units_trans (c ∷ s) (d ∷ t) (e ∷ u) h k = ground (arith, units_trans s t u)

abbrev pub ascii : Locale
ascii = record {
  to_lower_case = map ascii_lower;
  to_upper_case = map ascii_upper;
  locale_compare = compare_units;
  lower_ascii = λ s h. refl;
  upper_ascii = λ s h. refl;
  compare_total = units_total;
  compare_trans = units_trans;
}
