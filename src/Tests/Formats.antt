-- ===== src/Tests/Formats.antt =====
-- A number, an amount and a message.
use dymension_rollapp_block.Common.{◌≡◌, ◌≢◌, refl, none, some, [], ◌∷◌, ◌++◌, map, arith}
use dymension_rollapp_block.Common.Text.{Str, text, is_space, span, skip}
use dymension_rollapp_block.Format.{format_number_string, get_amount, get_denom}
use dymension_rollapp_block.Format.Threes.{commas_placed}
use dymension_rollapp_block.Format.Amounts.{rpc_amount_read}
use dymension_rollapp_block.Transaction.Cts.{
  link, piece, last, translate_cts, pieces_from, match_cts, eat,
}
use dymension_rollapp_block.Transaction.Cts.Links.{meant, swap, links_of_cts}

commas_placed_example :
    (format_number_string (text "12" ++ text ".5") ≡ text "12" ++ text ".5")
    × (format_number_string ((text "1234" ++ text "567") ++ text ".5")
        ≡ format_number_string (text "1234") ++ text ",567.5")
commas_placed_example =
    commas_placed (text "12") b'1' (text "234") (text ".5") b'5' b'6' b'7' refl (omega arith) refl
      refl refl

rpc_amount_read_example :
    (get_amount (text "15" ++ text "adym") ≡ text "15")
    × (get_denom (text "15" ++ text "adym") ≡ some (text "adym"))
    × (get_denom (text "15" ++ text "ibc/27A" ++ b'F' ∷ []) ≡ none)
rpc_amount_read_example =
    rpc_amount_read b'1' (text "5") b'a' (text "dym") (text "ibc/27A") b'F' (ground arith)
      (ground arith) (ground arith)

-- `from `, an address and a full stop
abbrev message : Str
message = text "from " ++ text "{[{ .[address].[dym1]. }]}" ++ text "."

links_of_cts_example :
    (text "from " ≡ [] → translate_cts message ≡ link (text "dym1") ∷ meant (last (text ".")))
    × (text "from " ≢ []
        → translate_cts message
          ≡ map swap (meant (piece (text "from ") (text "dym1") (last (text ".")))))
unfolding pieces_from match_cts eat is_space span skip
links_of_cts_example = links_of_cts message (text "from ") (text "dym1") (last (text ".")) refl
