-- ===== src/Tests/Tables.antt =====
-- An account with two coins, and one with twelve tokens.
use dymension_rollapp_block.Common.{ℕ, ◌≡◌, refl, false, List, [], ◌∷◌, arith, inl}
use dymension_rollapp_block.Common.Text.{Str, text}
use dymension_rollapp_block.Table.Tokens.{
  Erc20Balance, sliced_contracts, address_tokens, tokens_stuck,
}

format : Str → ℕ → Str
format amount exponent = amount

abbrev token : Erc20Balance
token = record { balance = text "1"; contract = text "0xc"; decimals = 6; display = text "TKN" }

abbrev contracts : List Str
contracts =
    text "a"
    ∷ text "b"
    ∷ text "c"
    ∷ text "d"
    ∷ text "e"
    ∷ text "f"
    ∷ text "g"
    ∷ text "h"
    ∷ text "i"
    ∷ text "j"
    ∷ text "k"
    ∷ text "l"
    ∷ []

tokens_stuck_example : ◌≡◌ {A = ℕ} 0 0
unfolding sliced_contracts address_tokens
tokens_stuck_example = tokens_stuck format contracts (token ∷ []) 0 0 false (omega arith) (inl refl)
