-- ===== src/Transaction/Data/Tabs.antt =====
-- What the tabs of a transaction show.
use mathlib.Core.Path.{subst}
use dymension_rollapp_block.Common.{
  ℕ, suc, map, ltb, ◌≡◌, ◌≢◌, inl, inr, refl, sym, ap, Option, none, some, List, [], ◌∷◌, Member,
  All, All-append, All-member, arith, Option-cases,
}
use dymension_rollapp_block.Common.Text.{Str, text}
use dymension_rollapp_block.Address.{ok, ◌>>=◌}
use dymension_rollapp_block.Rpc.Service.{Response}
use dymension_rollapp_block.Hooks.Attempt.{Reply, got}
use dymension_rollapp_block.Transaction.Detail.{
  Msg, Transaction, Erc20ContractInfo, EvmTx, EvmLog, EvmReceipt, complete,
}
use dymension_rollapp_block.Transaction.Detail.Modes.{complete-data}
use dymension_rollapp_block.Transaction.Data.Rows.{
  Element, Ensures, >>=-Ensures, >>=-Ensures_ok, ensured,
}
use dymension_rollapp_block.Transaction.Data.Evm.{elements, evm_details}
use dymension_rollapp_block.Transaction.Data.Logs.{EventLog, evm_event_logs, evm_receipt_details}
use dymension_rollapp_block.Transaction.Data.Cosmos.{
  MessageItem, messages, messages_from, EventItem, attribute_rows, events_from, cosmos_event_logs,
}
use dymension_rollapp_block.Transaction.Packets.{TxEvent}
use dymension_rollapp_block.Transaction.Data.{
  TransactionType, evm_type, cosmos_type, get_transaction_type, TabValue, messages_tab,
  cosmos_event_logs_tab, evm_details_tab, evm_receipt_tab, evm_event_logs_tab, TxTab,
  event_logs_tabs, evm_event_logs_tabs, get_tabs_by_transaction, tab_value_or, TabContent,
  of_messages, of_events, of_details, of_receipt, of_logs, Page, tab_content, transaction_data,
}
use dymension_rollapp_block.Transaction.Data.Filled.{
  IsNonempty, HasElements, details_filled, receipt-IsNonempty, logs_nonempty,
}

abbrev pub msgs_of : Option (List Msg) → List Msg
msgs_of none = []
msgs_of (some msgs) = msgs

-- What a tab is to show of a transaction: an item for each message, or for each event, with its type,
-- in their order; details that are elements and none of the texts; a receipt with rows; and logs.
abbrev pub IsFilled : Transaction → TabValue → TabContent → Type 0
IsFilled tx messages_tab content =
    (items : List MessageItem) × (content ≡ of_messages items)
    × (map (λ i. i.type_) items ≡ map (λ (m : Msg). m.type_) (msgs_of tx.msgs))
IsFilled tx cosmos_event_logs_tab content =
    (items : List EventItem) × (content ≡ of_events items)
    × (map (λ i. i.type_) items ≡ map (λ (e : TxEvent). e.type_) tx.events)
IsFilled tx evm_details_tab content =
    (es : List Element) × (content ≡ of_details (elements es)) × (es ≢ [])
IsFilled tx evm_receipt_tab content =
    (rows : List Element) × (content ≡ of_receipt rows) × (rows ≢ [])
IsFilled tx evm_event_logs_tab content =
    (logs : List EventLog) × (content ≡ of_logs logs) × (logs ≢ [])

messages_from-types :
    (i : ℕ) (msgs : List Msg)
    → map (λ (m : MessageItem). m.type_) (messages_from i msgs) ≡ map (λ (m : Msg). m.type_) msgs
unfolding messages_from
messages_from-types i [] = refl
messages_from-types i (m ∷ msgs) = ap (λ ts. m.type_ ∷ ts) (messages_from-types (suc i) msgs)

messages-types :
    (tx : Transaction) (msgs : Option (List Msg))
    → tx.msgs ≡ msgs
    → map (λ (m : MessageItem). m.type_) (messages tx)
      ≡ map (λ (m : Msg). m.type_) (msgs_of tx.msgs)
unfolding messages
messages-types tx none e = rw e refl
messages-types tx (some msgs) e = rw e (messages_from-types 0 msgs)

-- The EVM data of a transaction of the EVM.
abbrev HasData : Transaction → Type 0
HasData tx =
    (evm_tx : EvmTx) × (receipt : EvmReceipt) × (tx.evm_tx ≡ some evm_tx)
    × (tx.evm_receipt ≡ some receipt)

shown_data :
    (contracts_of : List Str → Reply (Response Erc20ContractInfo)) (tx shown : Transaction)
    → complete contracts_of tx ≡ got shown
    → get_transaction_type shown ≡ evm_type
    → HasData shown
unfolding complete get_transaction_type
shown_data contracts_of tx shown e h = elim (Option-cases tx.evm_tx) [
  | inl no_tx ↦ absurd (ground arith)
  | inr (evm_tx, t) ↦ elim (Option-cases tx.evm_receipt) [
    | inl no_receipt ↦ absurd (ground arith)
    | inr (receipt, r) ↦
        let (same_tx, same_receipt) = complete-data contracts_of tx shown evm_tx receipt t r e in
        (evm_tx, receipt, same_tx, same_receipt)
  ]
]

module _ (page : Page) where
  open page use {locale, format, arithmetic, get_address, number, denoms_metadata, hooked}

  -- A tab that is clicked on is the selected one, and what it shows is filled.
  abbrev IsUsable : Transaction → TransactionType → TxTab → Type 0
  IsUsable tx type_ t =
      (tab_value_or (some t.tab_value) type_ ≡ t.tab_value)
      × Ensures (IsFilled tx t.tab_value) (tab_content page tx t.tab_value)

  events_from-types :
      (i : ℕ) (events : List TxEvent)
      → Ensures
          (λ items. map (λ (e : EventItem). e.type_) items ≡ map (λ (e : TxEvent). e.type_) events)
          (events_from locale format denoms_metadata i events)
  unfolding events_from
  events_from-types i [] = refl
  events_from-types i (e ∷ events) =
      >>=-Ensures _ (attribute_rows locale format denoms_metadata e.attributes)
        (λ rows. events_from locale format denoms_metadata (suc i) events >>= λ rest.
          ok (record { default_expanded = ltb i 10; type_ = e.type_; attributes = rows } ∷ rest))
        (λ rows.
          >>=-Ensures_ok _ _ (events_from locale format denoms_metadata (suc i) events)
            (λ rest.
              record { default_expanded = ltb i 10; type_ = e.type_; attributes = rows } ∷ rest)
            (λ rest same. ap (λ ts. e.type_ ∷ ts) same) (events_from-types (suc i) events))

  events-IsFilled :
      (tx : Transaction)
      → Ensures (IsFilled tx cosmos_event_logs_tab) (tab_content page tx cosmos_event_logs_tab)
  unfolding tab_content cosmos_event_logs
  events-IsFilled tx =
      >>=-Ensures_ok
        (λ items. map (λ (e : EventItem). e.type_) items ≡ map (λ (e : TxEvent). e.type_) tx.events)
        (IsFilled tx cosmos_event_logs_tab) (cosmos_event_logs locale format denoms_metadata tx)
        of_events (λ items same. (items, refl, same)) (events_from-types 0 tx.events)

  cosmos_usable :
      (tx : Transaction) → All (IsUsable tx cosmos_type) (get_tabs_by_transaction tx cosmos_type)
  unfolding get_tabs_by_transaction tab_value_or tab_content
  cosmos_usable tx = (
    (refl, (messages tx, refl, messages-types tx tx.msgs refl)),
    ((refl, events-IsFilled tx), tt),
  )

  module _ (tx : Transaction) (evm_tx : EvmTx) (receipt : EvmReceipt) (e : tx.evm_tx ≡ some evm_tx)
      (r : tx.evm_receipt ≡ some receipt) where
    details_tab :
        get_transaction_type tx ≡ evm_type
        → IsUsable tx evm_type (record { label = text "Details"; tab_value = evm_details_tab })
    unfolding tab_value_or tab_content evm_details
    details_tab t = (
      refl,
      >>=-Ensures_ok HasElements (IsFilled tx evm_details_tab)
          (evm_details get_address arithmetic tx hooked) of_details
          (λ d (es, same, h). (es, ap of_details same, h))
          (rw (e, r)
            (details_filled get_address arithmetic tx evm_tx receipt hooked tx.mode refl t)),
    )

    receipt_tab :
        IsUsable tx evm_type (record { label = text "Receipt"; tab_value = evm_receipt_tab })
    unfolding tab_value_or tab_content evm_receipt_details
    receipt_tab = (
      refl,
      >>=-Ensures_ok IsNonempty (IsFilled tx evm_receipt_tab)
          (evm_receipt_details get_address number arithmetic tx) of_receipt
          (λ rows h. (rows, refl, h))
          (rw r (receipt-IsNonempty get_address arithmetic number receipt)),
    )

    logs_tab :
        (log : EvmLog) (logs : List EvmLog)
        → receipt.logs ≡ log ∷ logs
        → IsUsable tx evm_type
            (record { label = text "EVM Event Logs"; tab_value = evm_event_logs_tab })
    unfolding tab_value_or tab_content evm_event_logs
    logs_tab log logs l = (
      refl,
      >>=-Ensures_ok (λ events. events ≢ []) (IsFilled tx evm_event_logs_tab)
          (evm_event_logs get_address number arithmetic tx) of_logs (λ logs h. (logs, refl, h))
          (rw (r, l) (logs_nonempty get_address arithmetic number tx.contracts log logs)),
    )

    logs_usable :
        (logs : List EvmLog)
        → receipt.logs ≡ logs
        → All (IsUsable tx evm_type) (evm_event_logs_tabs logs)
    logs_usable [] l = tt
    logs_usable (log ∷ logs) l = (logs_tab log logs l, tt)

    evm_usable :
        get_transaction_type tx ≡ evm_type
        → All (IsUsable tx evm_type) (get_tabs_by_transaction tx evm_type)
    unfolding get_tabs_by_transaction tab_value_or
    evm_usable t =
        let logs : All (IsUsable tx evm_type) (event_logs_tabs tx.evm_receipt) =
          subst (λ o. All (IsUsable tx evm_type) (event_logs_tabs o)) (sym r)
            (logs_usable receipt.logs refl) in
        (
          details_tab t,
          (
            receipt_tab,
            All-append (IsUsable tx evm_type) (event_logs_tabs tx.evm_receipt) _ logs
                ((refl, events-IsFilled tx), tt),
          ),
        )

  usable_tabs :
      (contracts_of : List Str → Reply (Response Erc20ContractInfo)) (tx shown : Transaction)
      (type_ : TransactionType)
      → complete contracts_of tx ≡ got shown
      → get_transaction_type shown ≡ type_
      → All (IsUsable shown type_) (get_tabs_by_transaction shown type_)
  usable_tabs contracts_of tx shown cosmos_type h t = cosmos_usable shown
  usable_tabs contracts_of tx shown evm_type h t =
      let (evm_tx, receipt, e, r) = shown_data contracts_of tx shown h t in
      evm_usable shown evm_tx receipt e r t

  abbrev IsClicked : Transaction → TxTab → Option (List TxTab × TabValue × TabContent) → Type 0
  IsClicked tx t none = Unit
  IsClicked tx t (some (tabs, tab, content)) = (tab ≡ t.tab_value) × IsFilled tx t.tab_value content

  -- Of a transaction that the hook has completed, a click on one of its tabs selects that tab, and
  -- what is then shown, where nothing throws, is what the tab is for: the details are one element or
  -- more and none of the error texts, the receipt has rows, the tab of the EVM logs has logs, and the
  -- other two tabs have an item of its type for each message, or for each event, in their order.
  pub tab-IsFilled :
      (contracts_of : List Str → Reply (Response Erc20ContractInfo)) (tx shown : Transaction)
      (t : TxTab) (tabs : List TxTab) (tab : TabValue) (content : TabContent)
      → complete contracts_of tx ≡ got shown
      → Member t (get_tabs_by_transaction shown (get_transaction_type shown))
      → transaction_data page (some shown) (some t.tab_value) ≡ ok (some (tabs, tab, content))
      → (tab ≡ t.tab_value) × IsFilled shown t.tab_value content
  unfolding transaction_data
  tab-IsFilled contracts_of tx shown t tabs tab content h m e =
      let type_ = get_transaction_type shown in
      let (selected, shows) =
        All-member (IsUsable shown type_) t (get_tabs_by_transaction shown type_)
          (usable_tabs contracts_of tx shown type_ h refl) m in
      let filled_tab : Ensures (IsClicked shown t)
          (transaction_data page (some shown) (some t.tab_value)) =
        rw selected (
          >>=-Ensures_ok (IsFilled shown t.tab_value) (IsClicked shown t)
            (tab_content page shown t.tab_value)
            (λ c. some (get_tabs_by_transaction shown type_, t.tab_value, c)) (λ c f. (refl, f))
            shows) in
      ensured (IsClicked shown t) (transaction_data page (some shown) (some t.tab_value))
        (some (tabs, tab, content)) e filled_tab
