-- ===== src/Database/Search.antt =====
-- web-app/src/services/db/search.ts, web-app/src/actions/transaction.ts, and the route of
-- web-app/src/app/api/search: the search that the server answers.
use dymension_rollapp_block.Common.{ℕ, true, Option, none, some, List, [], ◌∷◌, map, if◌then◌else◌}
use dymension_rollapp_block.Common.Text.{Str, trim}
use dymension_rollapp_block.Common.Locale.{Locale}
use dymension_rollapp_block.Address.{
  Bech32, Result, ok, ◌>>=◌, is_evm_address, is_cosmos_address, is_tx_hash, from_bech32,
}
use dymension_rollapp_block.Transaction.Hashes.{get_tx_hashes_query_value}
use dymension_rollapp_block.Database.{Model}
use dymension_rollapp_block.Database.Chains.{
  ChainRow, ChainModel, get_evm_chain_info, get_chain_info_by_prefix,
  search_chain_info_by_multiple_fields,
}
use dymension_rollapp_block.Database.Accounts.{
  TransactionRow, TransactionWhere, transaction_matches, get_chain_id_and_tx_hash_by_tx_hashes,
  get_tx_hash_and_chain_info_by_tx_hashes,
}

-- What the module takes from the packages, the database and the clock.
pub record Server : Type 0 where
  pub locale : Locale
  pub bech32 : Bech32
  pub chains : ChainModel
  pub txs : Model TransactionRow TransactionWhere transaction_matches
  pub now : ℕ

pub record ChainHeight : Type 0 where
  pub chain_id : Str
  pub name : Str
  pub height : ℕ

-- The object of the answer, which has one field or none.
pub data ServerResult : Type 0 where
  nothing : ServerResult
  with_txs : List TransactionRow → ServerResult
  with_address : List ChainRow → ServerResult
  with_chains : List ChainHeight → ServerResult

-- `xs.length ? f(xs) : {}`
abbrev pub unless_empty : {A : Type 0} → (List A → ServerResult) → List A → ServerResult
unless_empty f [] = nothing
unless_empty f (x ∷ xs) = f (x ∷ xs)

abbrev pub height_of : ChainRow → ChainHeight
height_of i = record { chain_id = i.chain_id; name = i.name; height = i.latest_indexed_block }

module _ (s : Server) where
  unfoldable pub get_chain_id_and_tx_hash_by_hash : Str → List TransactionRow
  unfolding get_tx_hashes_query_value get_chain_id_and_tx_hash_by_tx_hashes
  get_chain_id_and_tx_hash_by_hash tx_hash =
      get_chain_id_and_tx_hash_by_tx_hashes s.txs (get_tx_hashes_query_value s.locale tx_hash)

  unfoldable pub search_by_tx_hash : Str → List TransactionRow
  unfolding get_tx_hashes_query_value get_tx_hash_and_chain_info_by_tx_hashes
  search_by_tx_hash tx_hash =
      get_tx_hash_and_chain_info_by_tx_hashes s.txs (get_tx_hashes_query_value s.locale tx_hash)

  unfoldable pub handle_global_search_on_server : Str → Result ServerResult
  unfolding search_by_tx_hash is_tx_hash is_evm_address is_cosmos_address from_bech32
      get_evm_chain_info get_chain_info_by_prefix search_chain_info_by_multiple_fields
  handle_global_search_on_server value =
      if is_tx_hash value
      then ok (unless_empty with_txs (search_by_tx_hash value))
      else if is_evm_address value
      then ok (unless_empty with_address (get_evm_chain_info s.chains s.now))
      else if is_cosmos_address value
      then (do
        rollapp_address ← from_bech32 s.bech32 value none true
        ok (
            unless_empty with_address
              (get_chain_info_by_prefix s.chains s.now rollapp_address.prefix)))
      else ok (
          unless_empty (λ rows. with_chains (map height_of rows))
            (search_chain_info_by_multiple_fields s.chains s.now value))

  -- The route: none is the answer `Invalid Search Value`, with status 400.
  unfoldable pub get_search : (value : Option Str) → Option (Result ServerResult)
  unfolding handle_global_search_on_server trim
  get_search none = none
  get_search (some value) = elim (trim value) [
    | [] ↦ none
    | c ∷ rest ↦ some (handle_global_search_on_server (c ∷ rest))
  ]
