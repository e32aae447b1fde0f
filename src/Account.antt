-- ===== src/Account.antt =====
-- web-app/src/app/[rollappPath]/address/[address]/page.tsx, the page of an address.
pub mod Transactions
pub mod Forms
pub mod Listed
pub mod Summary
pub mod Governor
use dymension_rollapp_block.Common.{
  ℕ, zero, suc, Bool, true, false, ◌&&◌, ◌||◌, Option, none, some, List, [], ◌∷◌, map,
  if◌then◌else◌,
}
use dymension_rollapp_block.Common.Text.{Str, text, ◌===◌}
use dymension_rollapp_block.Common.Dict.{Dict, get}
use dymension_rollapp_block.Common.Locale.{Locale}
use dymension_rollapp_block.Pagination.{
  SearchParam, undefined, null, string, nan, num, get_number_from_string_param,
  get_page_and_page_size_from_string_param, get_offset_from_page_and_page_size,
}
use dymension_rollapp_block.Rollapp.{RollappInfo}
use dymension_rollapp_block.Address.{
  Bech32, RollappAddress, Result, ok, throw, package_error, ◌>>=◌, is_evm_address, from_bech32,
  to_bech32, from_hex, to_hex,
}
use dymension_rollapp_block.Database.{Model}
use dymension_rollapp_block.Database.Accounts.{
  AccountTransactionFilterOption, RefRow, RefWhere, ref_matches, RecentTx, QueryPaginationOption,
  count_account_transactions, get_account_transactions, TransactionRow, TransactionWhere,
  transaction_matches, get_transactions, count_transactions,
}
use dymension_rollapp_block.Table.{Table}
use dymension_rollapp_block.Table.Block.{TransactionFields}

-- `AddressTransactionType` of consts/addressPage.ts, and the `switch`.
unfoldable pub get_filter_options_from_tx_type : SearchParam → AccountTransactionFilterOption
unfolding ◌===◌
get_filter_options_from_tx_type undefined = record { signer = none; erc20 = none; nft = none }
get_filter_options_from_tx_type null = record { signer = none; erc20 = none; nft = none }
get_filter_options_from_tx_type (string s) =
    if s === text "senttxs"
    then record { signer = some true; erc20 = none; nft = none }
    else if s === text "tokentransfers"
    then record { signer = none; erc20 = some true; nft = none }
    else if s === text "nfttransfers"
    then record { signer = none; erc20 = none; nft = some true }
    else record { signer = none; erc20 = none; nft = none }

-- `Account` of services/db/accounts.ts
pub record Account : Type 0 where
  pub chain_id : Str
  pub bech32_address : Str
  pub balance_on_erc20_contracts : List Str
  pub balance_on_nft_contracts : List Str

-- What the page takes from the packages and the database. `find_unique_account` is
-- `findUnique` of a key of accounts, with the columns that `getAccount` selects.
pub record PageServices : Type 0 where
  pub locale : Locale
  pub bech32 : Bech32
  pub get_address : Str → Option Str
  pub refs : Model RefRow RefWhere ref_matches
  pub find_unique_account : (chain_id bech32_address : Str) → Option Account

-- `getAccount` of services/db/accounts.ts
unfoldable pub get_account : PageServices → (chain_id bech32_address : Str) → Option Account
get_account services chain_id bech32_address = services.find_unique_account chain_id bech32_address

-- `rollappAddress` and `valAddress`. The redirection is one of the page's results.
pub data Resolved : Type 0 where
  account_of : RollappAddress → Resolved
  validator_of : (rollapp_address val_address : RollappAddress) → Resolved
  unknown_prefix : Resolved

-- A key of the object that is missing is undefined, which is no decoded prefix.
unfoldable pub is_prefix : Option Str → Str → Bool
unfolding ◌===◌
is_prefix none p = false
is_prefix (some q) p = p === q

pub data AddressPage : Type 0 where
  redirect : Str → AddressPage
  validator_detail :
      (bech32_address : Str) (evm_address : Option Str) (bond_denom : Option Str) → AddressPage
  account_page :
      (bech32_address : Str) (evm_address : Option Str) (account_info : Option Account)
      (transactions : Table TransactionFields)
      → AddressPage

abbrev pub todo_fields : RecentTx → TransactionFields
todo_fields i = record {
  height = i.height;
  hash = i.hash;
  epoch = i.epoch;
  tx_type = text "TODO";
  message_types = i.message_types;
  action = i.action;
  value = none;
}

module _ (services : PageServices) (rollapp_info : RollappInfo) where
  open services use {locale, bech32, get_address, refs}

  abbrev pub is_evm_chain : Bool
  is_evm_chain = rollapp_info.chain_type === text "evm"

  -- The `switch` on the prefix of the address as it is written. A prefix that is undefined is passed
  -- on as one that is not given.
  unfoldable pub switch_prefix : (address : Str) (parsed_address : RollappAddress) → Result Resolved
  unfolding from_bech32 get is_prefix
  switch_prefix address parsed_address =
      let known : Str → Bool =
        λ key. is_prefix (get rollapp_info.bech32 key) parsed_address.prefix in
      if known (text "addr")
      then ok (account_of parsed_address)
      else if known (text "val") || known (text "cons")
      then (do
        rollapp_address ← from_bech32 bech32 address (get rollapp_info.bech32 (text "addr")) false
        ok (validator_of rollapp_address parsed_address))
      else ok unknown_prefix

  unfoldable pub resolve_bech32 : Str → Result Resolved
  unfolding from_bech32 switch_prefix
  resolve_bech32 address = do
    parsed_address ← from_bech32 bech32 address none true
    switch_prefix address parsed_address

  -- `address` is in lower case. Without `addr` a hexadecimal address has no Bech32 form: the page
  -- throws where it asks for it.
  unfoldable pub resolve : Str → Result Resolved
  unfolding is_evm_address from_hex resolve_bech32 get
  resolve address =
      if is_evm_chain && is_evm_address address
      then elim (get rollapp_info.bech32 (text "addr")) [
        | none ↦ throw package_error
        | some prefix ↦ ok (account_of (from_hex address prefix))
      ]
      else resolve_bech32 address

  -- `isEVMChain ? rollappAddress.toHex() : null`
  unfoldable pub evm_form : RollappAddress → Result (Option Str)
  unfolding to_hex
  evm_form a = if is_evm_chain then (do hex ← to_hex get_address a true; ok (some hex)) else ok none

  -- The transactions of a page: `transactionResult`, and the table that shows it.
  unfoldable pub transactions_of :
      (bech32_address : Str) (tx_type page_size_param page_param : SearchParam)
      → Table TransactionFields
  unfolding get_filter_options_from_tx_type count_account_transactions get_account_transactions
  transactions_of bech32_address tx_type page_size_param page_param =
      let filter_options = get_filter_options_from_tx_type tx_type in
      let total =
        count_account_transactions refs rollapp_info.chain_id bech32_address filter_options in
      let (page_size, page) =
        get_page_and_page_size_from_string_param page_size_param page_param (some total) in
      let transactions =
        get_account_transactions refs rollapp_info.chain_id bech32_address filter_options (record {
          skip = some (get_offset_from_page_and_page_size (num page) page_size);
          number = some page_size;
        }) in
      record {
        body = map todo_fields transactions;
        total = some total;
        page = page;
        page_size = page_size;
        loading = false;
        loading_items = none;
        enable_pagination = true;
      }

  unfoldable pub show :
      (rollapp_path : Str) (tx_type page_size_param page_param : SearchParam)
      → Resolved
      → Result AddressPage
  unfolding to_bech32 evm_form transactions_of get get_account
  show rollapp_path tx_type page_size_param page_param unknown_prefix =
      ok (redirect (b'/' ∷ rollapp_path))
  show rollapp_path tx_type page_size_param page_param (validator_of rollapp_address val_address) =
      do
        bech32_address ← to_bech32 bech32 val_address
        evm_address ← evm_form rollapp_address
        ok (validator_detail bech32_address evm_address (get rollapp_info.denoms (text "bond")))
  show rollapp_path tx_type page_size_param page_param (account_of rollapp_address) = do
    bech32_address ← to_bech32 bech32 rollapp_address
    evm_address ← evm_form rollapp_address
    ok (
        account_page bech32_address evm_address
          (get_account services rollapp_info.chain_id bech32_address)
          (transactions_of bech32_address tx_type page_size_param page_param))

  unfoldable pub address_page :
      (rollapp_path address : Str) (tx_type page_size_param page_param : SearchParam)
      → Result AddressPage
  unfolding resolve show
  address_page rollapp_path address tx_type page_size_param page_param = do
    resolved ← resolve (locale.to_lower_case address)
    show rollapp_path tx_type page_size_param page_param resolved
