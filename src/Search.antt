-- ===== src/Search.antt =====
-- web-app/src/services/search.service.ts: the search over blocks, transactions, accounts and
-- RollApps. The database's answer to a hash, `getAddress` and `bech32` are parameters.
pub mod Block
pub mod Laws
pub mod Contains
pub mod Items
pub mod Box
use Prim.Native.Nat.{Ordering}
use dymension_rollapp_block.Common.{
  ℕ, Bool, true, false, not, ◌&&◌, ◌||◌, Option, none, some, List, [], ◌∷◌, map, filter,
  if◌then◌else◌,
}
use dymension_rollapp_block.Common.Text.{Str, text, ◌===◌, includes, trim}
use dymension_rollapp_block.Common.Dict.{Dict, get}
use dymension_rollapp_block.Common.Locale.{Locale}
use dymension_rollapp_block.Common.Sort.{sort}
use dymension_rollapp_block.Rollapp.{RollappInfo, rollapp_infos_to_object}
use dymension_rollapp_block.Address.{
  Bech32, RollappAddress, Result, ok, throw, lift, ◌>>=◌, is_evm_address, is_cosmos_address,
  is_tx_hash, from_bech32,
}
use dymension_rollapp_block.Transaction.Hashes.{get_tx_hashes_query_value}
use dymension_rollapp_block.Search.Block.{BlockSearchResult, get_block_search_result}

-- A row that the database returns for a hash.
pub record TxRow : Type 0 where
  pub chain_id : Str
  pub hash : Str

-- `rollappInfo` may be undefined: the map may not have the row's chain.
pub record TxSearchResult : Type 0 where
  pub tx_hash : Str
  pub rollapp_info : Option RollappInfo

pub record AccountSearchResult : Type 0 where
  pub account : Str
  pub rollapp_infos : List RollappInfo

pub record SearchResult : Type 0 where
  pub rollapps : Option (List RollappInfo)
  pub blocks : Option BlockSearchResult
  pub txs : Option (List TxSearchResult)
  pub accounts : Option AccountSearchResult

-- `xs.length ? xs : null`
abbrev pub or_null : {A : Type 0} → List A → Option (List A)
or_null [] = none
or_null (x ∷ xs) = some (x ∷ xs)

-- What the module takes from the packages and the database.
pub record Services : Type 0 where
  pub bech32 : Bech32
  pub get_address : Str → Option Str
  -- `getChainIdAndTxHashByTxHashes` of services/db/transactions.ts
  pub find_txs : List Str → List TxRow

module _ (locale : Locale) where
  open locale use {to_lower_case, locale_compare}

  unfoldable pub get_rollapp_search_result : Str → List RollappInfo → Option (List RollappInfo)
  unfolding includes
  get_rollapp_search_result search_text all_rollapp_infos =
      let wanted = to_lower_case search_text in
      or_null (
        filter
          (λ i.
            includes (to_lower_case i.name) wanted || includes (to_lower_case i.chain_id) wanted)
          all_rollapp_infos)

  -- The value of a key is undefined where it is missing, and then equals no prefix.
  unfoldable pub has_prefix : RollappInfo → Str → Str → Bool
  unfolding get
  has_prefix i key prefix = elim (get i.bech32 key) [ none ↦ false | some p ↦ p === prefix ]

  unfoldable pub get_account_search_result :
      Services → Str → List RollappInfo → Result (Option AccountSearchResult)
  unfolding has_prefix is_evm_address is_cosmos_address from_bech32
  get_account_search_result services search_text all_rollapp_infos =
      if is_evm_address search_text
      then (do
        account ← lift (services.get_address search_text)
        ok (
            some (record {
              account = account;
              rollapp_infos = filter (λ i. i.chain_type === text "evm") all_rollapp_infos;
            })))
      else if is_cosmos_address search_text
      then (do
        rollapp_address ← from_bech32 services.bech32 search_text none true
        ok (
            some (record {
              account = to_lower_case search_text;
              rollapp_infos =
                  filter
                    (λ i.
                      has_prefix i (text "addr") rollapp_address.prefix
                      || has_prefix i (text "val") rollapp_address.prefix)
                    all_rollapp_infos;
            })))
      else ok none

  unfoldable pub get_transaction_search_result :
      Services → Str → Dict RollappInfo → Option (List TxSearchResult)
  unfolding is_tx_hash get get_tx_hashes_query_value
  get_transaction_search_result services search_text rollapp_info_map =
      if is_tx_hash search_text
      then or_null (
          map
            (λ (i : TxRow). record {
              tx_hash = i.hash;
              rollapp_info = get rollapp_info_map i.chain_id;
            })
            (services.find_txs (get_tx_hashes_query_value locale search_text)))
      else none

  -- `a.chain_id === selectedRollappInfo?.chain_id`
  abbrev pub is_selected : Option RollappInfo → RollappInfo → Bool
  is_selected none a = false
  is_selected (some s) a = a.chain_id === s.chain_id

  -- The comparator: the selected RollApp, then the favorites, then by name.
  unfoldable pub by_selection : Option RollappInfo → RollappInfo → RollappInfo → Ordering
  by_selection selected a b =
      if is_selected selected a
      then Ordering.lt
      else if is_selected selected b
      then Ordering.gt
      else if a.is_favorite && not b.is_favorite
      then Ordering.lt
      else if b.is_favorite && not a.is_favorite
      then Ordering.gt
      else locale_compare a.name b.name

  -- The searches of `Promise.all`; an exception of one is the exception of all.
  unfoldable pub handle_global_search :
      Services → Str → List RollappInfo → Option RollappInfo → Result SearchResult
  unfolding get_block_search_result get_transaction_search_result get_account_search_result
      get_rollapp_search_result by_selection rollapp_infos_to_object trim
  handle_global_search services search_text all_rollapp_infos selected =
      let sorted = sort (by_selection selected) all_rollapp_infos in
      let rollapp_info_map = rollapp_infos_to_object sorted in
      let trimmed = trim search_text in
      if trimmed === []
      then ok
          (record { rollapps = some all_rollapp_infos; blocks = none; txs = none; accounts = none })
      else do
        accounts ← get_account_search_result services trimmed sorted
        ok (record {
          rollapps = get_rollapp_search_result trimmed all_rollapp_infos;
          blocks = get_block_search_result trimmed sorted;
          txs = get_transaction_search_result services trimmed rollapp_info_map;
          accounts = accounts;
        })
