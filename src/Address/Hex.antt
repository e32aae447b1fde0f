-- ===== src/Address/Hex.antt =====
-- `Buffer.from(hex, 'hex')` and `toString('hex')` of the runtime, as address.ts uses them: reading
-- stops before the first pair that is not two hexadecimal digits.
use dymension_rollapp_block.Common.{
  ℕ, ◌+◌, ◌-◌, ◌*◌, ◌/◌, ◌%◌, ◌<◌, ◌≡◌, refl, true, ◌&&◌, List, [], ◌∷◌, All, ltb, leb, arith,
  if◌then◌else◌,
}
use dymension_rollapp_block.Common.Text.{Str, is_hex}

abbrev pub IsBytes : List ℕ → Type 0
IsBytes bytes = All (λ b. b < 256) bytes

unfoldable pub hex_digit : ℕ → ℕ
hex_digit n = if ltb n 10 then b'0' + n else b'a' + (n - 10)

unfoldable pub digit_value : ℕ → ℕ
digit_value c = if leb c b'9' then c - b'0' else if leb c b'F' then c - b'A' + 10 else c - b'a' + 10

unfoldable pub to_hex_text : List ℕ → Str
unfolding hex_digit
to_hex_text [] = []
to_hex_text (b ∷ bytes) = hex_digit (b / 16) ∷ hex_digit (b % 16) ∷ to_hex_text bytes

unfoldable pub from_hex_text : Str → List ℕ
unfolding digit_value
from_hex_text [] = []
from_hex_text (c ∷ []) = []
from_hex_text (c ∷ d ∷ s) =
    let rest = from_hex_text s in
    if is_hex c && is_hex d then (digit_value c * 16 + digit_value d) ∷ rest else []

pub digit_round_trip :
    (n : ℕ) → n < 16 → (digit_value (hex_digit n) ≡ n) × (is_hex (hex_digit n) ≡ true)
unfolding digit_value hex_digit
digit_round_trip n h = ground arith

pub from-to_hex_text : (bytes : List ℕ) → IsBytes bytes → from_hex_text (to_hex_text bytes) ≡ bytes
unfolding from_hex_text to_hex_text
from-to_hex_text [] h = refl
from-to_hex_text (b ∷ bytes) (small, h) =
    ground (arith, digit_round_trip (b / 16), digit_round_trip (b % 16), from-to_hex_text bytes h)

-- No hexadecimal text of bytes holds `0x`.
pub hex_digit-no_x : (n : ℕ) → n < 16 → (hex_digit n ≡ b'x') → ⊥
unfolding hex_digit
hex_digit-no_x n h e = ground arith
