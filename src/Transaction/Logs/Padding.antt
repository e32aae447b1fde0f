-- ===== src/Transaction/Logs/Padding.antt =====
-- The padding of a hexadecimal text does not change its value.
use dymension_rollapp_block.Common.{
  ℕ, ◌%◌, ◌≡◌, ◌≢◌, inl, inr, refl, ap, ◌∙◌, true, some, [], ◌∷◌, ◌++◌, length, all, ◌==◌, arith,
  Bool-cases,
}
use dymension_rollapp_block.Common.Text.{Str, text, starts_with, is_hex, ◌===◌}
use dymension_rollapp_block.Common.Decimal.{to_string}
use dymension_rollapp_block.Address.Hex.{digit_value}
use dymension_rollapp_block.Search.Block.{read_hex}
use dymension_rollapp_block.Transaction.Logs.{big_int, pad_hex, hex_to_dec}

big_int_of_hex :
    (s : Str) → s ≢ [] → all is_hex s ≡ true → big_int (text "0x" ++ s) ≡ some (read_hex 0 s)
unfolding big_int ◌===◌ starts_with
big_int_of_hex [] ne h = absurd (ne refl)
big_int_of_hex (c ∷ s) ne h = ground arith

padded_value :
    (s : Str)
    → s ≢ []
    → all is_hex s ≡ true
    → big_int (pad_hex (text "0x" ++ s)) ≡ some (read_hex 0 s)
unfolding pad_hex read_hex digit_value
padded_value s ne h = elim (Bool-cases (length (text "0x" ++ s) % 2 == 0)) [
  | inl even ↦
      let kept : pad_hex (text "0x" ++ s) ≡ text "0x" ++ s = ground arith in
      ap big_int kept ∙ big_int_of_hex s ne h
  | inr odd ↦
      let padded : pad_hex (text "0x" ++ s) ≡ text "0x" ++ b'0' ∷ s = ground arith in
      ap big_int padded ∙ big_int_of_hex (b'0' ∷ s) (λ e. ground arith) h
]

converted : (x : Str) (n : ℕ) → big_int (pad_hex x) ≡ some n → hex_to_dec x ≡ some (to_string n)
unfolding hex_to_dec
converted x n e = ground arith

-- One or more hexadecimal digits behind `0x` are converted to the decimal numeral of their value,
-- whether their number is even or odd.
pub hex_to_dec_value :
    (s : Str)
    → s ≢ []
    → all is_hex s ≡ true
    → hex_to_dec (text "0x" ++ s) ≡ some (to_string (read_hex 0 s))
hex_to_dec_value s ne h = converted (text "0x" ++ s) (read_hex 0 s) (padded_value s ne h)
