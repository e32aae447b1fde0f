-- ===== src/Transaction/Logs.antt =====
-- `translateEvmLogIfPossible` of web-app/src/utils/transaction.ts and `hexToDec` of
-- web-app/src/utils/number.ts: the transfers and approvals of ERC-20 contracts in an EVM log.
pub mod Padding
pub mod Amounts
use dymension_rollapp_block.Common.{
  ℕ, zero, suc, ◌*◌, ◌+◌, ◌%◌, Bool, true, false, not, ◌&&◌, ◌||◌, Option, none, some, List, [],
  ◌∷◌, ◌++◌, length, all, drop, ◌==◌, if◌then◌else◌,
}
use dymension_rollapp_block.Common.Text.{Str, text, ◌===◌, starts_with, substring, is_hex}
use dymension_rollapp_block.Common.Decimal.{is_digits, parse_int, to_string}
use dymension_rollapp_block.Common.Dict.{Dict, get}
use dymension_rollapp_block.Rpc.Service.{Answer, value, error_of}
use dymension_rollapp_block.Search.Block.{read_hex, some_hex}
use dymension_rollapp_block.Transaction.Detail.{Erc20ContractInfo, ContractMap}

-- `BigInt(s)` of a text without space or sign, in hexadecimal or decimal digits; the empty text is 0,
-- and another text throws. (`0o` and `0b` are not read.)
unfoldable pub big_int : Str → Option ℕ
unfolding starts_with is_digits parse_int read_hex
big_int s =
    if s === []
    then some 0
    else if starts_with s (text "0x") || starts_with s (text "0X")
    then (if some_hex (drop 2 s) then some (read_hex 0 (drop 2 s)) else none)
    else if is_digits s
    then some (parse_int s)
    else none

-- A text of odd length is given a digit 0 behind its first two characters.
unfoldable pub pad_hex : Str → Str
pad_hex hex_str = if length hex_str % 2 == 0 then hex_str else text "0x0" ++ substring hex_str 2

unfoldable pub hex_to_dec : Str → Option Str
unfolding pad_hex big_int to_string
hex_to_dec hex_str = elim (big_int (pad_hex hex_str)) [ none ↦ none | some n ↦ some (to_string n) ]

pub data TranslateType : Type 0 where
  erc20_transfer erc20_approval : TranslateType

pub record TranslatedLog : Type 0 where
  pub type_ : TranslateType
  pub action : Str
  pub from : Str
  pub to : Str
  pub amount : Str
  pub is_raw_amount : Bool

unfoldable pub transfer_topic : Str
transfer_topic = text "0xddf252ad1be2c89b69c2b068fc378daa952ba7f163c4a11628f55a4df523b3ef"

unfoldable pub approval_topic : Str
approval_topic = text "0x8c5be1e5ebec7d5bd14f71427d1e84f3dd0314c0f7b2291e5b200ac8c7c3b925"

unfoldable pub zero_padding : Str
zero_padding = text "0x000000000000000000000000"

unfoldable pub is_topic_evm_address : Str → Bool
unfolding starts_with zero_padding
is_topic_evm_address topic = starts_with topic zero_padding

-- `contractAddressToErc20ContractInfo?.get(emitter)?.decimals`: an `{ error }` has none.
unfoldable pub decimals_of : Option ContractMap → Str → Option ℕ
unfolding get
decimals_of none emitter = none
decimals_of (some contracts) emitter = elim (get contracts emitter) [
  | none ↦ none
  | some (error_of e) ↦ none
  | some (value info) ↦ info.decimals
]

-- What a call returns: a translation, `null`, or an exception of `BigInt`.
pub data Translation : Type 0 where
  translated : TranslatedLog → Translation
  untranslated : Translation
  throws : Translation

-- `divide` stands for `divideAmountByDecimals(amount, decimals).toString()`, of the package `big.js`.
module _ (divide : Str → ℕ → Str) where
  -- The object that is returned, with the amount and whether it is raw.
  unfoldable pub with_amount :
      TranslateType → (action : Str) → (topic_from topic_to data_ : Str) → Option ℕ → Translation
  unfolding hex_to_dec
  with_amount type_ action topic_from topic_to data_ decimals =
      let log = λ (amount : Str) (raw : Bool). translated (record {
        type_ = type_;
        action = action;
        from = text "0x" ++ substring topic_from 26;
        to = text "0x" ++ substring topic_to 26;
        amount = amount;
        is_raw_amount = raw;
      }) in
      elim decimals [
        | none ↦ log data_ true
        | some zero ↦ log data_ false
        | some (suc d) ↦ elim (hex_to_dec data_) [
          | none ↦ throws
          | some amount ↦ log (divide amount (suc d)) false
        ]
      ]

  unfoldable pub translate_evm_log_if_possible :
      List Str → Str → Str → Option ContractMap → Translation
  unfolding with_amount is_topic_evm_address decimals_of transfer_topic approval_topic
  translate_evm_log_if_possible (topic ∷ topic_from ∷ topic_to ∷ []) data_ emitter contracts =
      let fits =
        is_topic_evm_address topic_from && is_topic_evm_address topic_to && length data_ == 66 in
      let decimals = decimals_of contracts emitter in
      if topic === transfer_topic && fits
      then with_amount erc20_transfer (text "Transfer (ERC-20)") topic_from topic_to data_ decimals
      else if topic === approval_topic && fits
      then with_amount erc20_approval (text "Approve (ERC-20)") topic_from topic_to data_ decimals
      else untranslated
  translate_evm_log_if_possible _ data_ emitter contracts = untranslated
