-- ===== src/Tests/Views.antt =====
-- The data of an EVM transaction, and the page of a block.
use dymension_rollapp_block.Common.{
  ◌≡◌, ◌↔◌, inl, refl, false, none, some, List, [], Member, here, there, arith,
}
use dymension_rollapp_block.Common.Text.{text, ◌===◌}
use dymension_rollapp_block.Common.Locale.{ascii}
use dymension_rollapp_block.Address.{Result, ok, throw}
use dymension_rollapp_block.Transaction.Detail.{EvmLog, complete}
use dymension_rollapp_block.Transaction.Data.Rows.{Arithmetic, Element}
use dymension_rollapp_block.Transaction.Data.{
  Page, TxTab, TabContent, evm_receipt_tab, evm_type, get_tabs_by_transaction, transaction_data,
  of_receipt,
}
use dymension_rollapp_block.Transaction.Data.Tabs.{IsFilled, tab-IsFilled}
use dymension_rollapp_block.Transaction.Data.Failures.{
  HasThrown, logs_throw_iff, input_missing_throws,
}
use dymension_rollapp_block.Transaction.Data.Logs.{evm_event_logs, receipt_rows}
use dymension_rollapp_block.Tests.Transactions.{evm, shown, call, receipt, contracts_of}

abbrev arithmetic : Arithmetic
arithmetic = record { divide = λ amount decimals. amount; big = λ s. some s }

abbrev page : Page
page = record {
  locale = ascii;
  format = λ amount decimals. amount;
  arithmetic = arithmetic;
  get_address = λ s. some s;
  number = λ s. s;
  denoms_metadata = [];
  hooked = record {
    chain_info_loading = false;
    chain = some [];
    denoms_metadata_loading = false;
    denoms_metadata = [];
  };
}

abbrev row_item_of : Result (List Element) → TabContent
row_item_of (ok rows) = of_receipt rows
row_item_of (throw e) = of_receipt []

abbrev receipt_tab : TxTab
receipt_tab = record { label = text "Receipt"; tab_value = evm_receipt_tab }

abbrev content : TabContent
content = row_item_of (receipt_rows page.get_address page.number page.arithmetic receipt)

tab-IsFilled_example :
    (receipt_tab.tab_value ≡ receipt_tab.tab_value) × IsFilled shown receipt_tab.tab_value content
unfolding complete ◌===◌ transaction_data get_tabs_by_transaction
tab-IsFilled_example =
    tab-IsFilled page contracts_of evm shown receipt_tab (get_tabs_by_transaction shown evm_type)
      evm_receipt_tab content refl (there here) refl

logs_throw_iff_example :
    HasThrown (evm_event_logs page.get_address page.number page.arithmetic shown)
    ↔ ((log : EvmLog) × Member log receipt.logs × (log.topics ≡ []))
logs_throw_iff_example =
    logs_throw_iff page.get_address page.number page.arithmetic shown.contracts shown receipt refl
      refl (inl refl, tt)

input_missing_throws_example : HasThrown (transaction_data page (some shown) none)
unfolding complete ◌===◌
input_missing_throws_example =
    input_missing_throws page contracts_of evm shown call receipt refl refl refl refl (ground arith)
      refl
