-- ===== src/Transaction/Logs/Amounts.antt =====
-- What is made of a transfer or an approval.
use dymension_rollapp_block.Common.{
  ℕ, zero, suc, ◌≡◌, ◌≢◌, refl, Bool, true, false, Option, some, none, [], ◌∷◌, ◌++◌, length, all,
  arith,
}
use dymension_rollapp_block.Common.Text.{Str, text, is_hex, ◌===◌, ===_self}
use dymension_rollapp_block.Common.Decimal.{to_string}
use dymension_rollapp_block.Search.Block.{read_hex}
use dymension_rollapp_block.Transaction.Detail.{ContractMap}
use dymension_rollapp_block.Transaction.Logs.{
  TranslateType, erc20_transfer, erc20_approval, transfer_topic, approval_topic, zero_padding,
  is_topic_evm_address, decimals_of, translated, with_amount, translate_evm_log_if_possible,
}
use dymension_rollapp_block.Transaction.Logs.Padding.{hex_to_dec_value}

-- The topic of each kind of log, and its name.
abbrev pub topic_of : TranslateType → Str
topic_of erc20_transfer = transfer_topic
topic_of erc20_approval = approval_topic

abbrev pub action_of : TranslateType → Str
action_of erc20_transfer = text "Transfer (ERC-20)"
action_of erc20_approval = text "Approve (ERC-20)"

-- The amount that is shown for a value in hexadecimal digits, and whether it is marked as raw.
abbrev pub shown_amount : (Str → ℕ → Str) → Str → Option ℕ → Str × Bool
shown_amount divide digits none = (text "0x" ++ digits, true)
shown_amount divide digits (some zero) = (text "0x" ++ digits, false)
shown_amount divide digits (some (suc d)) = (divide (to_string (read_hex 0 digits)) (suc d), false)

padded : (a : Str) → is_topic_evm_address (zero_padding ++ a) ≡ true
unfolding is_topic_evm_address
padded a = refl

topics_differ : (approval_topic === transfer_topic) ≡ false
unfolding approval_topic transfer_topic ◌===◌
topics_differ = refl

nonempty : (digits : Str) → length digits ≡ 64 → digits ≢ []
nonempty [] l = absurd (omega arith)
nonempty (c ∷ digits) l = cc

amount_shown :
    (divide : Str → ℕ → Str) (kind : TranslateType) (a b digits : Str) (decimals : Option ℕ)
    → length digits ≡ 64
    → all is_hex digits ≡ true
    → with_amount divide kind
        (action_of kind)
        (zero_padding ++ a)
        (zero_padding ++ b)
        (text "0x" ++ digits)
        decimals
      ≡ translated (record {
        type_ = kind;
        action = action_of kind;
        from = text "0x" ++ a;
        to = text "0x" ++ b;
        amount = (shown_amount divide digits decimals).0;
        is_raw_amount = (shown_amount divide digits decimals).1;
      })
unfolding with_amount zero_padding
amount_shown divide kind a b digits none l h = refl
amount_shown divide kind a b digits (some zero) l h = refl
amount_shown divide kind a b digits (some (suc d)) l h =
    let value = hex_to_dec_value digits (nonempty digits l) h in ground arith

-- A transfer or an approval with two addresses that are padded with zeros, and a value of 64
-- hexadecimal digits, is translated: to the two addresses without the padding, and to the value
-- divided by the contract's decimals. Where the decimals are not known the value is left
-- hexadecimal and marked as raw; where they are 0 it is left hexadecimal and not marked.
pub log_translated :
    (divide : Str → ℕ → Str) (kind : TranslateType) (a b digits emitter : Str)
    (contracts : Option ContractMap)
    → length digits ≡ 64
    → all is_hex digits ≡ true
    → translate_evm_log_if_possible divide
        (topic_of kind ∷ (zero_padding ++ a) ∷ (zero_padding ++ b) ∷ [])
        (text "0x" ++ digits)
        emitter
        contracts
      ≡ translated (record {
        type_ = kind;
        action = action_of kind;
        from = text "0x" ++ a;
        to = text "0x" ++ b;
        amount = (shown_amount divide digits (decimals_of contracts emitter)).0;
        is_raw_amount = (shown_amount divide digits (decimals_of contracts emitter)).1;
      })
unfolding translate_evm_log_if_possible
log_translated divide erc20_transfer a b digits emitter contracts l h =
    rw (===_self transfer_topic, l)
      (amount_shown divide erc20_transfer a b digits (decimals_of contracts emitter) l h)
log_translated divide erc20_approval a b digits emitter contracts l h =
    rw (topics_differ, ===_self approval_topic, l)
      (amount_shown divide erc20_approval a b digits (decimals_of contracts emitter) l h)
