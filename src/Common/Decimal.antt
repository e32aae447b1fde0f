-- ===== src/Common/Decimal.antt =====
-- Decimal numerals: `parseInt` on a text of digits, and `toString` of a whole number.
use Prim.Native.Nat.{ℕ, zero, suc, ◌+◌, ◌-◌, ◌*◌, ◌/◌, ◌%◌, ◌<◌}
use mathlib.Core.Path.{◌≡◌, refl}
use mathlib.Core.Bool.{Bool, true, false, ◌&&◌}
use mathlib.Core.List.{[], ◌∷◌}
use native.Mathlib.Omega.{arith}
use dymension_rollapp_block.Common.Tests.{ltb, if◌then◌else◌}
use dymension_rollapp_block.Common.Lists.{all}
use dymension_rollapp_block.Common.Text.{Str, is_digit, text}

-- The value of the digits of a text behind those that make `n`.
unfoldable pub read_digits : ℕ → Str → ℕ
read_digits n [] = n
read_digits n (c ∷ s) = read_digits (n * 10 + (c - b'0')) s

-- `parseInt(s)` where `s` is one or more decimal digits
unfoldable pub parse_int : Str → ℕ
unfolding read_digits
parse_int s = read_digits 0 s

-- The digits of `n` before `out`; the fuel is more than the number of digits.
print_from : ℕ → ℕ → Str → Str
print_from zero n out = out
print_from (suc fuel) n out =
    let rest = print_from fuel (n / 10) ((b'0' + n % 10) ∷ out) in
    if ltb n 10 then (b'0' + n) ∷ out else rest

-- `n.toString()`
unfoldable pub to_string : ℕ → Str
unfolding print_from
to_string n = print_from (suc n) n []

-- What `/^\d+$/` tests: one or more digits, and nothing else.
unfoldable pub is_digits : Str → Bool
is_digits [] = false
is_digits (c ∷ s) = is_digit c && all is_digit s

read-print_from :
    (fuel n : ℕ) (out : Str) → n < fuel → read_digits 0 (print_from fuel n out) ≡ read_digits n out
unfolding read_digits print_from
read-print_from zero n out h = elim h [ ]
read-print_from (suc fuel) n out h =
    ground (arith, read-print_from fuel (n / 10) ((b'0' + n % 10) ∷ out))

all_digits-print_from :
    (fuel n : ℕ) (out : Str)
    → all is_digit out ≡ true
    → n < fuel
    → is_digits (print_from fuel n out) ≡ true
unfolding print_from is_digits
all_digits-print_from zero n out d h = elim h [ ]
all_digits-print_from (suc fuel) n out d h =
    ground (arith, all_digits-print_from fuel (n / 10) ((b'0' + n % 10) ∷ out))

-- Printing a number and reading it back gives the number.
pub parse_int-to_string : (n : ℕ) → parse_int (to_string n) ≡ n
unfolding parse_int to_string
parse_int-to_string n = read-print_from (suc n) n [] (omega arith)

-- A printed number is a text of digits.
pub is_digits-to_string : (n : ℕ) → is_digits (to_string n) ≡ true
unfolding to_string
is_digits-to_string n = all_digits-print_from (suc n) n [] refl (omega arith)

print_42 : to_string 42 ≡ text "42"
unfolding to_string
print_42 = refl
