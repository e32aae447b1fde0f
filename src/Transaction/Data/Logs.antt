-- ===== src/Transaction/Data/Logs.antt =====
-- The logs of an EVM transaction and its receipt: _EvmEventLogs.tsx and _EvmReceiptDetails.tsx in
-- web-app/src/components/client/transaction/TransactionData.
use dymension_rollapp_block.Common.{
  ℕ, suc, Bool, Option, none, some, List, [], ◌∷◌, ◌++◌, take, leb, if◌then◌else◌,
}
use dymension_rollapp_block.Common.Text.{Str, text, ◌===◌}
use dymension_rollapp_block.Common.Decimal.{to_string}
use dymension_rollapp_block.Address.{Result, ok, throw, lift, ◌>>=◌}
use dymension_rollapp_block.Transaction.Detail.{EvmLog, EvmReceipt, ContractMap, Transaction}
use dymension_rollapp_block.Transaction.Logs.{
  TranslatedLog, translated, untranslated, throws, transfer_topic, approval_topic,
  translate_evm_log_if_possible, hex_to_dec,
}
use dymension_rollapp_block.Transaction.Data.Rows.{
  Piece, words, address_link, text_field, Element, row_item, name_of, symbol_of, type_error,
  Arithmetic, from_hex_string_to_ethereum_gas_price_value, format_number,
}

unfoldable pub transfer_single_topic : Str
transfer_single_topic = text "0xc3d58168c5ae7397731d063d5bbf3d657854427343f4c083240f7aacaa2d0f62"

unfoldable pub transfer_batch_topic : Str
transfer_batch_topic = text "0x4a39dc06d4c0dbc64b70af90fd698a233a518aa5d07e595d983b8c0526c8f7fb"

-- The name of a topic. One without a name is cut, with its whole text as a tooltip.
pub data Topic : Type 0 where
  named : Str → Topic
  shortened : (shown tooltip : Str) → Topic

unfoldable pub get_shortened_topic : Str → Topic
unfolding transfer_topic approval_topic transfer_single_topic transfer_batch_topic ◌===◌
get_shortened_topic topic =
    if topic === transfer_topic
    then named (text "Transfer")
    else if topic === approval_topic
    then named (text "Approval")
    else if topic === transfer_single_topic
    then named (text "TransferSingle")
    else if topic === transfer_batch_topic
    then named (text "TransferBatch")
    else shortened (take 10 topic ++ text "...") topic

-- `topics[0]`: the cut of what is undefined is a `TypeError`.
abbrev pub first_topic : List Str → Result Topic
first_topic [] = throw type_error
first_topic (topic ∷ topics) = ok (get_shortened_topic topic)

-- An accordion: the title is `[index] contract emits topic`.
pub record EventLog : Type 0 where
  pub default_expanded : Bool
  pub log_index : Str
  pub contract : Str
  pub topic : Topic
  pub items : List Element

unfoldable pub topic_rows : ℕ → List Str → List Element
unfolding to_string
topic_rows idx [] = []
topic_rows idx (topic ∷ topics) =
    row_item (text "topic" ++ to_string idx) (words topic ∷ []) ∷ topic_rows (suc idx) topics

abbrev pub amount_text : TranslatedLog → (symbol : Str) → Str
amount_text log symbol =
    if log.is_raw_amount then text "(Raw) " ++ log.amount else log.amount ++ b' ' ∷ symbol

-- `name || getAddress(address)`
abbrev pub name_or : Option Str → Result Str → Result Str
name_or none address = address
name_or (some []) address = address
name_or (some (c ∷ s)) address = ok (c ∷ s)

-- `number` stands for `Number(s).toString()`.
module _ (get_address : Str → Option Str) (number : Str → Str) (arithmetic : Arithmetic) where
  open arithmetic use {divide}

  unfoldable pub render_topics_and_data :
      List Str → Str → (emitter : Str) → Option ContractMap → Result (List Element)
  unfolding translate_evm_log_if_possible topic_rows symbol_of
  render_topics_and_data topics data_ emitter contracts =
      elim (translate_evm_log_if_possible divide topics data_ emitter contracts) [
        | throws ↦ throw type_error
        | untranslated ↦
            ok (topic_rows 0 topics ++ row_item (text "Data") (text_field data_ ∷ []) ∷ [])
        | translated log ↦ (do
          from ← lift (get_address log.from)
          to ← lift (get_address log.to)
          ok (
              row_item (text "Action") (words log.action ∷ [])
              ∷ row_item (text "From") (address_link from none ∷ [])
              ∷ row_item (text "To") (address_link to none ∷ [])
              ∷ row_item (text "Amount")
                  (words (amount_text log (symbol_of contracts emitter)) ∷ [])
              ∷ []))
      ]

  unfoldable pub event_log : Option ContractMap → ℕ → EvmLog → Result EventLog
  unfolding name_of render_topics_and_data get_shortened_topic
  event_log contracts idx event = do
    contract ← name_or (name_of contracts event.address) (lift (get_address event.address))
    topic ← first_topic event.topics
    address ← lift (get_address event.address)
    rows ← render_topics_and_data event.topics event.data_ event.address contracts
    ok (record {
      default_expanded = leb idx 10;
      log_index = number event.log_index;
      contract = contract;
      topic = topic;
      items =
          row_item (text "Contract") (address_link address (some contract) ∷ []) ∷ rows
          ++ row_item (text "Log Index") (words (number event.log_index) ∷ []) ∷ [];
    })

  unfoldable pub event_logs_from : Option ContractMap → ℕ → List EvmLog → Result (List EventLog)
  unfolding event_log
  event_logs_from contracts idx [] = ok []
  event_logs_from contracts idx (event ∷ logs) = do
    shown ← event_log contracts idx event
    rest ← event_logs_from contracts (suc idx) logs
    ok (shown ∷ rest)

  -- A transaction without a receipt shows nothing.
  unfoldable pub evm_event_logs : Transaction → Result (List EventLog)
  unfolding event_logs_from
  evm_event_logs tx = elim tx.evm_receipt [
    | none ↦ ok []
    | some receipt ↦ event_logs_from tx.contracts 0 receipt.logs
  ]

  -- `value && <RowItem …/>` of a text
  unfoldable pub row_if : Str → Option Str → (Str → Result Piece) → Result (List Element)
  row_if label none piece = ok []
  row_if label (some []) piece = ok []
  row_if label (some (c ∷ s)) piece = do p ← piece (c ∷ s); ok (row_item label (p ∷ []) ∷ [])

  abbrev pub linked : Str → Result Piece
  linked s = do address ← lift (get_address s); ok (address_link address none)

  unfoldable pub gas_text : Str → Result Piece
  unfolding hex_to_dec format_number
  gas_text s = do dec ← lift (hex_to_dec s); shown ← format_number arithmetic dec; ok (words shown)

  abbrev pub price_text : Str → Result Piece
  price_text s = do
    price ← from_hex_string_to_ethereum_gas_price_value arithmetic s
    ok (words price)

  unfoldable pub receipt_rows : EvmReceipt → Result (List Element)
  unfolding row_if gas_text from_hex_string_to_ethereum_gas_price_value
  receipt_rows receipt = do
    from ← linked receipt.from
    to ← row_if (text "To") receipt.to linked
    made ← row_if (text "New Contract Address") receipt.contract_address linked
    cumulative ← row_if (text "Cummulative Gas Used") (some receipt.cumulative_gas_used) gas_text
    price ← row_if (text "Effective Gas Price") (some receipt.effective_gas_price) price_text
    used ← gas_text receipt.gas_used
    ok (
        row_item (text "From") (from ∷ []) ∷ to
        ++ made
        ++ row_item (text "Status") (words receipt.status ∷ []) ∷ cumulative
        ++ price
        ++ row_item (text "Gas Used") (used ∷ [])
          ∷ row_item (text "Type") (words receipt.type_ ∷ [])
          ∷ [])

  unfoldable pub evm_receipt_details : Transaction → Result (List Element)
  unfolding receipt_rows
  evm_receipt_details tx = elim tx.evm_receipt [
    | none ↦ ok []
    | some receipt ↦ receipt_rows receipt
  ]
