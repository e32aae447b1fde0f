-- ===== src/Table/Transactions.antt =====
-- web-app/src/components/client/transaction/TransactionListTable.tsx: the rows of the transactions.
-- `format` stands for `formatBlockchainAmount`, of the package `big.js`.
pub mod Labels
use dymension_rollapp_block.Common.{
  ℕ, Bool, true, false, ◌&&◌, ◌||◌, Option, none, some, List, [], ◌∷◌, ◌++◌, map, any,
  if◌then◌else◌,
}
use dymension_rollapp_block.Common.Text.{Str, text, ◌===◌, split}
use dymension_rollapp_block.Common.Dict.{Dict, get}
use dymension_rollapp_block.Store.State.{DenomMetadata}
use dymension_rollapp_block.Pathname.{get_new_path_by_rollapp}
use dymension_rollapp_block.Transaction.Names.{get_message_name}
use dymension_rollapp_block.Table.{Table}
use dymension_rollapp_block.Table.Block.{TransactionFields}

-- A chip of the action, in the color of EVM or of wasm, or a chip of each name of a message.
pub data MessageLabel : Type 0 where
  info_chip : Str → MessageLabel
  secondary_chip : Str → MessageLabel
  names_of_messages : List Str → MessageLabel

-- `splitted[1] || splitted[0]`
abbrev pub second_or_first : List Str → Str
second_or_first [] = []
second_or_first (s ∷ []) = s
second_or_first (s ∷ [] ∷ _) = s
second_or_first (s ∷ (c ∷ t) ∷ _) = c ∷ t

-- `Array.from(new Set(…))`: each once, in the order of the first of each; `seen` is those so far.
unfoldable pub distinct : (seen : List Str) → List Str → List Str
unfolding ◌===◌
distinct seen [] = []
distinct seen (s ∷ ss) =
    let rest = distinct (s ∷ seen) ss in
    let same = distinct seen ss in if any (λ t. s === t) seen then same else s ∷ rest

unfoldable pub message_names : List Str → MessageLabel
unfolding distinct get_message_name
message_names message_types = names_of_messages (distinct [] (map get_message_name message_types))

-- The two types that have a chip of their own; the label is not empty.
unfoldable pub chip_or : MessageLabel → (tx_type label : Str) → MessageLabel
unfolding ◌===◌
chip_or names tx_type [] = names
chip_or names tx_type (c ∷ label) =
    if tx_type === text "evm"
    then info_chip (c ∷ label)
    else if tx_type === text "wasm"
    then secondary_chip (c ∷ label)
    else names

unfoldable pub get_message_label :
    (message_types : List Str) (action : Option Str) (tx_type : Str) → MessageLabel
unfolding message_names chip_or split
get_message_label message_types none tx_type = message_names message_types
get_message_label message_types (some action) tx_type =
    chip_or (message_names message_types) tx_type (second_or_first (split action b':'))

module _ (format : Str → ℕ → Str) (denoms_metadata : Dict DenomMetadata) where
  -- `const [amount, denom] = v.split(' ')`; a missing one reads the key `undefined`.
  abbrev pub amount_and_denom : List Str → Str × Str
  amount_and_denom [] = ([], text "undefined")
  amount_and_denom (amount ∷ []) = (amount, text "undefined")
  amount_and_denom (amount ∷ denom ∷ _) = (amount, denom)

  -- The texts of the loop, and whether some token is left out.
  unfoldable pub known_values : List Str → List Str × Bool
  unfolding split get
  known_values [] = ([], false)
  known_values (v ∷ values) =
      let (amount, denom) = amount_and_denom (split v b' ') in
      let (shown, has_some_token) = known_values values in
      elim (get denoms_metadata denom) [
        | none ↦ (shown, true)
        | some m ↦
            ((format amount m.highest_exponent ++ text " " ++ m.symbol) ∷ shown, has_some_token)
      ]

  unfoldable pub value_cell : Option (List Str) → List Str
  unfolding known_values
  value_cell none = text "-" ∷ []
  value_cell (some []) = text "-" ∷ []
  value_cell (some (v ∷ values)) =
      let (shown, has_some_token) = known_values (v ∷ values) in
      if has_some_token then shown ++ text "some token" ∷ [] else shown

-- The cells of a row, less those of the block and of the time.
pub record ListRow : Type 0 where
  pub href : Str
  pub label : MessageLabel
  pub value : Option (List Str)

module _ (format : Str → ℕ → Str) (denoms_metadata : Dict DenomMetadata) (pathname : Str) where
  unfoldable pub transaction_row : (include_value : Bool) → TransactionFields → ListRow
  unfolding get_new_path_by_rollapp get_message_label value_cell
  transaction_row include_value t = record {
    href = get_new_path_by_rollapp pathname (text "//tx/" ++ t.hash);
    label = get_message_label t.message_types t.action t.tx_type;
    value = if include_value then some (value_cell format denoms_metadata t.value) else none;
  }

  unfoldable pub transaction_list_table :
      Table TransactionFields → (include_value denoms_metadata_loading : Bool) → Table ListRow
  unfolding transaction_row
  transaction_list_table t include_value denoms_metadata_loading = record {
    body = map (transaction_row include_value) t.body;
    total = t.total;
    page = t.page;
    page_size = t.page_size;
    loading = t.loading || (include_value && denoms_metadata_loading);
    loading_items = none;
    enable_pagination = t.enable_pagination;
  }
