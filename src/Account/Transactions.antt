-- ===== src/Account/Transactions.antt =====
-- web-app/src/app/[rollappPath]/txs/page.tsx, the page of the transactions of a RollApp.
use dymension_rollapp_block.Common.{ℕ, suc, true, false, none, some, map}
use dymension_rollapp_block.Common.Text.{Str}
use dymension_rollapp_block.Pagination.{
  SearchParam, num, get_number_from_string_param, get_page_and_page_size_from_string_param,
  get_offset_from_page_and_page_size,
}
use dymension_rollapp_block.Database.{Model}
use dymension_rollapp_block.Database.Accounts.{
  TransactionRow, TransactionWhere, transaction_matches, get_transactions, count_transactions,
}
use dymension_rollapp_block.Table.{Table}
use dymension_rollapp_block.Table.Block.{TransactionFields}

-- The page of the transactions: the list of a chain, or that of a block whose number is in the query.
pub data TransactionsPage : Type 0 where
  of_block : (block_no : ℕ) → TransactionsPage
  of_rollapp : Table TransactionFields → TransactionsPage

abbrev pub listed_fields : TransactionRow → TransactionFields
listed_fields t = record {
  height = t.height;
  hash = t.hash;
  epoch = t.epoch;
  tx_type = t.tx_type;
  message_types = t.message_types;
  action = t.action;
  value = some t.value;
}

unfoldable pub rollapp_transactions :
    Model TransactionRow TransactionWhere transaction_matches
    → (chain_id : Str) (page_size_param page_param : SearchParam) → Table TransactionFields
unfolding count_transactions get_transactions
rollapp_transactions txs chain_id page_size_param page_param =
    let total = count_transactions txs chain_id in
    let (page_size, page) =
      get_page_and_page_size_from_string_param page_size_param page_param (some total) in
    let transactions = get_transactions txs chain_id (record {
      skip = some (get_offset_from_page_and_page_size (num page) page_size);
      number = some page_size;
    }) in
    record {
      body = map listed_fields transactions;
      total = some total;
      page = page;
      page_size = page_size;
      loading = false;
      loading_items = none;
      enable_pagination = true;
    }

-- `getNumberFromStringParam(searchParams.block) || null`: block 0 is none.
unfoldable pub transactions_page :
    Model TransactionRow TransactionWhere transaction_matches
    → (chain_id : Str) (block page_size_param page_param : SearchParam) → TransactionsPage
unfolding get_number_from_string_param rollapp_transactions
transactions_page txs chain_id block page_size_param page_param =
    elim (get_number_from_string_param block) [
      | num (suc n) ↦ of_block (suc n)
      | _ ↦ of_rollapp (rollapp_transactions txs chain_id page_size_param page_param)
    ]
