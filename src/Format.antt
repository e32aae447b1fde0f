-- ===== src/Format.antt =====
-- The texts of numbers, amounts and types: `formatNumberString` of web-app/src/utils/number.ts, the
-- amounts and type names of web-app/src/utils/common.ts, and the texts of web-app/src/utils/address.ts.
-- `format` stands for `formatBlockchainAmount`, of the package `big.js`.
pub mod Grouping
pub mod Threes
pub mod Amounts
use mathlib.Core.List.{reverse}
use dymension_rollapp_block.Common.{
  ℕ, zero, ◌%◌, Bool, true, false, ◌&&◌, Option, none, some, List, [], ◌∷◌, ◌++◌, all, length, ◌==◌,
  if◌then◌else◌,
}
use dymension_rollapp_block.Common.Text.{
  Str, text, split, span, is_digit, is_lower, is_upper, is_word,
}
use dymension_rollapp_block.Common.Dict.{Dict, get}
use dymension_rollapp_block.Common.Locale.{Locale}
use dymension_rollapp_block.Store.State.{DenomMetadata}
use dymension_rollapp_block.Transaction.Names.{has_dot, last_part}

-- `(\d{3})+$`
abbrev pub is_threes : Str → Bool
is_threes [] = false
is_threes (c ∷ s) = all is_digit (c ∷ s) && length (c ∷ s) % 3 == 0

-- `.replace(/\B(?=(\d{3})+$)/g, ',')`: no boundary of a word stands between a word's character and a
-- digit.
unfoldable pub group_digits : Str → Str
group_digits [] = []
group_digits (c ∷ s) =
    let rest = group_digits s in if is_word c && is_threes s then c ∷ b',' ∷ rest else c ∷ rest

-- `pieces.join('.')`, of a first piece and others
unfoldable pub join_dots : Str → List Str → Str
join_dots first [] = first
join_dots first (p ∷ pieces) = first ++ b'.' ∷ join_dots p pieces

-- The pieces of `split` are never none.
abbrev pub grouped : List Str → Str
grouped [] = []
grouped (first ∷ pieces) = join_dots (group_digits first) pieces

unfoldable pub format_number_string : Str → Str
unfolding split group_digits join_dots
format_number_string value = grouped (split value b'.')

-- `/^\d+/`
abbrev pub or_zero : Str → Str
or_zero [] = text "0"
or_zero (c ∷ s) = c ∷ s

unfoldable pub get_amount : Str → Str
unfolding span
get_amount rpc_amount_str = or_zero (span is_digit rpc_amount_str)

abbrev pub some_text : Str → Option Str
some_text [] = none
some_text (c ∷ s) = some (c ∷ s)

-- `/[a-z]+$/`
unfoldable pub get_denom : Str → Option Str
unfolding span
get_denom rpc_amount_str = some_text (reverse (span is_lower (reverse rpc_amount_str)))

-- `.replace(/\B(?=[A-Z])/g, ' ')`
unfoldable pub add_space_between_words : Str → Str
add_space_between_words [] = []
add_space_between_words (c ∷ []) = c ∷ []
add_space_between_words (c ∷ d ∷ s) =
    let rest = add_space_between_words (d ∷ s) in
    if is_word c && is_upper d then c ∷ b' ' ∷ rest else c ∷ rest

-- `/(?<=\.)[^\.]+$/`, or the whole text where it does not match
unfoldable pub get_prototype_from_type_url : Str → Str
unfolding add_space_between_words last_part
get_prototype_from_type_url type_url =
    let last = last_part type_url in
    if has_dot type_url
    then elim last [
      | [] ↦ add_space_between_words type_url
      | c ∷ s ↦ add_space_between_words (c ∷ s)
    ]
    else add_space_between_words type_url

module _ (locale : Locale) (format : Str → ℕ → Str) where
  unfoldable pub format_rpc_amount : Str → Dict DenomMetadata → Str
  unfolding get_amount get_denom get
  format_rpc_amount amount_str denoms_metadata = elim (get_denom amount_str) [
    | none ↦ format (get_amount amount_str) 0
    | some denom ↦ elim (get denoms_metadata denom) [
      | none ↦ format (get_amount amount_str) 0 ++ b' ' ∷ locale.to_upper_case denom
      | some m ↦ format (get_amount amount_str) m.highest_exponent ++ b' ' ∷ m.symbol
    ]
  ]

-- `ContractAccountInfo` of consts/rpcResTypes.ts, and what is read of `Account`
pub record ContractAccountInfo : Type 0 where
  pub name : Option Str
  pub symbol : Option Str
  pub decimals : Option ℕ

pub record RpcAccount : Type 0 where
  pub type_url : Str
  pub contract : Option ContractAccountInfo

-- `s ? before + s + after : ''`
abbrev pub around : Str → Str → Option Str → Str
around before after none = []
around before after (some []) = []
around before after (some (c ∷ s)) = before ++ (c ∷ s) ++ after

unfoldable pub get_account_type : RpcAccount → Str
unfolding get_prototype_from_type_url
get_account_type account = elim account.contract [
  | some contract ↦
      text "Smart Contract"
      ++ around (text ": ") [] contract.name
      ++ around (text " (") (text ")") contract.symbol
  | none ↦ elim account.type_url [
    | [] ↦ text "Account"
    | c ∷ s ↦ get_prototype_from_type_url (c ∷ s)
  ]
]

pub record Bech32Config : Type 0 where
  pub bech32_prefix_acc_addr : Str
  pub bech32_prefix_acc_pub : Str
  pub bech32_prefix_val_addr : Str
  pub bech32_prefix_val_pub : Str
  pub bech32_prefix_cons_addr : Str
  pub bech32_prefix_cons_pub : Str

unfoldable pub get_default_bech32_config :
    (main_prefix validator_prefix consensus_prefix public_prefix operator_prefix : Str)
    → Bech32Config
get_default_bech32_config main_prefix validator_prefix consensus_prefix public_prefix
      operator_prefix =
    record {
      bech32_prefix_acc_addr = main_prefix;
      bech32_prefix_acc_pub = main_prefix ++ public_prefix;
      bech32_prefix_val_addr = main_prefix ++ validator_prefix ++ operator_prefix;
      bech32_prefix_val_pub = main_prefix ++ validator_prefix ++ operator_prefix ++ public_prefix;
      bech32_prefix_cons_addr = main_prefix ++ validator_prefix ++ consensus_prefix;
      bech32_prefix_cons_pub = main_prefix ++ validator_prefix ++ consensus_prefix ++ public_prefix;
    }
