-- ===== src/Transaction/Data/Cosmos.antt =====
-- The messages and the events of a transaction: _Messages.tsx and _CosmosEventLogs.tsx in
-- web-app/src/components/client/transaction/TransactionData.
use dymension_rollapp_block.Common.{
  ℕ, suc, ◌||◌, Bool, Option, none, some, List, [], ◌∷◌, ◌++◌, leb, ltb, if◌then◌else◌,
}
use dymension_rollapp_block.Common.Text.{Str, text, ◌===◌}
use dymension_rollapp_block.Common.Decimal.{to_string}
use dymension_rollapp_block.Common.Dict.{Dict}
use dymension_rollapp_block.Common.Locale.{Locale}
use dymension_rollapp_block.Address.{Result, ok, throw, ◌>>=◌}
use dymension_rollapp_block.Transaction.Data.Rows.{type_error}
use dymension_rollapp_block.Store.State.{DenomMetadata}
use dymension_rollapp_block.Format.{format_rpc_amount}
use dymension_rollapp_block.Transaction.Packets.{Attribute, TxEvent}
use dymension_rollapp_block.Transaction.Names.{get_message_name}
use dymension_rollapp_block.Transaction.Cts.{Part, translate_cts}
use dymension_rollapp_block.Transaction.Detail.{Msg, Transaction}

-- An accordion of a message. In `content` a link has the address as its text.
pub record MessageItem : Type 0 where
  pub default_expanded : Bool
  pub title : Str
  pub content : List Part
  pub type_ : Str
  pub proto_message : Str

unfoldable pub messages_from : ℕ → List Msg → List MessageItem
unfolding get_message_name translate_cts to_string
messages_from idx [] = []
messages_from idx (msg ∷ msgs) =
    record {
      default_expanded = leb idx 0;
      title = b'#' ∷ to_string (suc idx) ++ b' ' ∷ get_message_name msg.type_;
      content = translate_cts msg.ctm;
      type_ = msg.type_;
      proto_message = msg.proto_content;
    }
    ∷ messages_from (suc idx) msgs

unfoldable pub messages : Transaction → List MessageItem
unfolding messages_from
messages tx = elim tx.msgs [ none ↦ [] | some msgs ↦ messages_from 0 msgs ]

-- A row of an event: below an amount or a fee the value stands as the server wrote it.
pub record AttributeRow : Type 0 where
  pub key : Str
  pub value : Option Str
  pub rpc_value : Option (Option Str)

pub record EventItem : Type 0 where
  pub default_expanded : Bool
  pub type_ : Str
  pub attributes : List AttributeRow

-- `formatBlockchainAmount`
module _ (locale : Locale) (format : Str → ℕ → Str) (denoms_metadata : Dict DenomMetadata) where
  -- A value that is no string is an exception where an amount is expected.
  abbrev pub formatted : Option Str → Result Str
  formatted none = throw type_error
  formatted (some amount) = ok (format_rpc_amount locale format amount denoms_metadata)

  unfoldable pub attribute_row : Attribute → Result AttributeRow
  unfolding ◌===◌ format_rpc_amount
  attribute_row attr =
      if attr.key === text "amount" || attr.key === text "fee"
      then (do
        shown ← formatted attr.value
        ok (record { key = attr.key; value = some shown; rpc_value = some attr.value }))
      else ok (record { key = attr.key; value = attr.value; rpc_value = none })

  unfoldable pub attribute_rows : List Attribute → Result (List AttributeRow)
  unfolding attribute_row
  attribute_rows [] = ok []
  attribute_rows (attr ∷ attributes) = do
    row ← attribute_row attr
    rest ← attribute_rows attributes
    ok (row ∷ rest)

  unfoldable pub events_from : ℕ → List TxEvent → Result (List EventItem)
  unfolding attribute_rows
  events_from idx [] = ok []
  events_from idx (event ∷ events) = do
    rows ← attribute_rows event.attributes
    rest ← events_from (suc idx) events
    ok (record { default_expanded = ltb idx 10; type_ = event.type_; attributes = rows } ∷ rest)

  unfoldable pub cosmos_event_logs : Transaction → Result (List EventItem)
  unfolding events_from
  cosmos_event_logs tx = events_from 0 tx.events
