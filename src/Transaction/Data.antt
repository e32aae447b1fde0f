-- ===== src/Transaction/Data.antt =====
-- The tabs of a transaction,
-- web-app/src/components/client/transaction/TransactionData/index.tsx, and `getTransactionType` of
-- web-app/src/utils/transaction.ts.
pub mod Rows
pub mod Evm
pub mod Logs
pub mod Cosmos
pub mod Filled
pub mod Tabs
pub mod Failures
use dymension_rollapp_block.Common.{ℕ, Option, none, some, List, [], ◌∷◌, ◌++◌, length}
use dymension_rollapp_block.Common.Text.{Str, text}
use dymension_rollapp_block.Common.Decimal.{to_string}
use dymension_rollapp_block.Common.Dict.{Dict}
use dymension_rollapp_block.Common.Locale.{Locale}
use dymension_rollapp_block.Address.{Result, ok, throw, ◌>>=◌}
use dymension_rollapp_block.Store.State.{DenomMetadata}
use dymension_rollapp_block.Transaction.Detail.{
  Transaction, TxMode, cosmos, evm_general_transfer, evm_contract_call, evm_contract_deploy, EvmLog,
  EvmReceipt,
}
use dymension_rollapp_block.Transaction.Data.Rows.{Element, Arithmetic}
use dymension_rollapp_block.Transaction.Data.Evm.{Hooked, Details, evm_details}
use dymension_rollapp_block.Transaction.Data.Logs.{EventLog, evm_event_logs, evm_receipt_details}
use dymension_rollapp_block.Transaction.Data.Cosmos.{
  MessageItem, messages, EventItem, cosmos_event_logs,
}

pub data TransactionType : Type 0 where
  evm_type cosmos_type : TransactionType

unfoldable pub get_transaction_type : Transaction → TransactionType
get_transaction_type tx = elim tx.mode [
  | cosmos ↦ cosmos_type
  | evm_general_transfer ↦ evm_type
  | evm_contract_call ↦ evm_type
  | evm_contract_deploy ↦ evm_type
]

-- In the order of their numbers, of which the first is 0.
pub data TabValue : Type 0 where
  messages_tab cosmos_event_logs_tab evm_details_tab evm_receipt_tab evm_event_logs_tab : TabValue

pub record TxTab : Type 0 where
  pub label : Str
  pub tab_value : TabValue

abbrev pub evm_event_logs_tabs : List EvmLog → List TxTab
evm_event_logs_tabs [] = []
evm_event_logs_tabs (log ∷ logs) =
    record { label = text "EVM Event Logs"; tab_value = evm_event_logs_tab } ∷ []

abbrev pub event_logs_tabs : Option EvmReceipt → List TxTab
event_logs_tabs none = []
event_logs_tabs (some receipt) = evm_event_logs_tabs receipt.logs

unfoldable pub messages_label : Transaction → Str
unfolding to_string
messages_label tx = elim tx.msgs [
  | none ↦ text "Messages"
  | some msgs ↦ text "Messages (" ++ to_string (length msgs) ++ text ") "
]

unfoldable pub get_tabs_by_transaction : Transaction → TransactionType → List TxTab
unfolding messages_label
get_tabs_by_transaction tx cosmos_type =
    record { label = messages_label tx; tab_value = messages_tab }
    ∷ record { label = text "Event Logs"; tab_value = cosmos_event_logs_tab }
    ∷ []
get_tabs_by_transaction tx evm_type =
    record { label = text "Details"; tab_value = evm_details_tab }
      ∷ record { label = text "Receipt"; tab_value = evm_receipt_tab }
      ∷ event_logs_tabs tx.evm_receipt
    ++ record { label = text "Cosmos Event Logs"; tab_value = cosmos_event_logs_tab } ∷ []

unfoldable pub get_default_tab_value : TransactionType → TabValue
get_default_tab_value cosmos_type = messages_tab
get_default_tab_value evm_type = evm_details_tab

-- `currentTab || getDefaultTabValue(type)`: the number of the first tab is falsy.
unfoldable pub tab_value_or : Option TabValue → TransactionType → TabValue
unfolding get_default_tab_value
tab_value_or none type_ = get_default_tab_value type_
tab_value_or (some messages_tab) type_ = get_default_tab_value type_
tab_value_or (some tab) type_ = tab

-- The content of a tab.
pub data TabContent : Type 0 where
  of_messages : List MessageItem → TabContent
  of_events : List EventItem → TabContent
  of_details : Details → TabContent
  of_receipt : List Element → TabContent
  of_logs : List EventLog → TabContent

-- What the tabs take of the packages and the hooks.
pub record Page : Type 0 where
  pub locale : Locale
  pub format : Str → ℕ → Str
  pub arithmetic : Arithmetic
  pub get_address : Str → Option Str
  pub number : Str → Str
  pub denoms_metadata : Dict DenomMetadata
  pub hooked : Hooked

module _ (page : Page) where
  open page use {locale, format, arithmetic, get_address, number, denoms_metadata, hooked}

  unfoldable pub tab_content : Transaction → TabValue → Result TabContent
  unfolding messages cosmos_event_logs evm_details evm_receipt_details evm_event_logs
  tab_content tx messages_tab = ok (of_messages (messages tx))
  tab_content tx cosmos_event_logs_tab = do
    events ← cosmos_event_logs locale format denoms_metadata tx
    ok (of_events events)
  tab_content tx evm_details_tab = do
    details ← evm_details get_address arithmetic tx hooked
    ok (of_details details)
  tab_content tx evm_receipt_tab = do
    rows ← evm_receipt_details get_address number arithmetic tx
    ok (of_receipt rows)
  tab_content tx evm_event_logs_tab = do
    logs ← evm_event_logs get_address number arithmetic tx
    ok (of_logs logs)

  -- The component: the tabs, the selected one, and its content; nothing of a transaction that is
  -- not there yet. `current_tab` is the state, which a click on a tab sets.
  unfoldable pub transaction_data :
      Option Transaction
      → (current_tab : Option TabValue) → Result (Option (List TxTab × TabValue × TabContent))
  unfolding get_transaction_type get_tabs_by_transaction tab_value_or tab_content
  transaction_data none current_tab = ok none
  transaction_data (some tx) current_tab =
      let type_ = get_transaction_type tx in
      let tab = tab_value_or current_tab type_ in
      tab_content tx tab >>= λ content. ok (some (get_tabs_by_transaction tx type_, tab, content))
