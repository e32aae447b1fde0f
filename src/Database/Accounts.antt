-- ===== src/Database/Accounts.antt =====
-- web-app/src/services/db/accounts.ts and web-app/src/services/db/transactions.ts: the queries on
-- the transactions of an account, and on those of a chain.
use dymension_rollapp_block.Common.{
  ℕ, Bool, true, false, not, ◌&&◌, Option, none, some, List, [], ◌∷◌, map, any, ltb,
}
use dymension_rollapp_block.Common.Text.{Str, ◌===◌}
use dymension_rollapp_block.Common.Locale.{compare_units}
use dymension_rollapp_block.Common.Sort.{sort}
use dymension_rollapp_block.Database.{plain_query, Model}

-- services/db/accounts.ts

pub record AccountTransactionFilterOption : Type 0 where
  pub signer : Option Bool
  pub erc20 : Option Bool
  pub nft : Option Bool

-- `ref_account_to_recent_txWhereInput`: a field that is none is left out.
pub record RefWhere : Type 0 where
  pub chain_id : Str
  pub bech32_address : Str
  pub signer : Option Bool
  pub erc20 : Option Bool
  pub nft : Option Bool

pub record RecentTx : Type 0 where
  pub hash : Str
  pub height : ℕ
  pub epoch : ℕ
  pub message_types : List Str
  pub action : Option Str

-- A row of `ref_account_to_recent_tx`, with the row of the transaction that it refers to.
pub record RefRow : Type 0 where
  pub chain_id : Str
  pub bech32_address : Str
  pub signer : Option Bool
  pub erc20 : Option Bool
  pub nft : Option Bool
  pub height : ℕ
  pub recent_accounts_transaction : RecentTx

-- Whether a column has the value asked for, where one is. Null has none.
abbrev pub as_asked : Option Bool → Option Bool → Bool
as_asked none o = true
as_asked (some b) none = false
as_asked (some true) (some c) = c
as_asked (some false) (some c) = not c

unfoldable pub ref_matches : RefWhere → RefRow → Bool
unfolding ◌===◌
ref_matches w r =
    r.chain_id === w.chain_id
    && r.bech32_address === w.bech32_address
    && as_asked w.signer r.signer
    && as_asked w.erc20 r.erc20
    && as_asked w.nft r.nft

unfoldable pub get_account_transactions_where_condition :
    (chain_id bech32_address : Str) → AccountTransactionFilterOption → RefWhere
get_account_transactions_where_condition chain_id bech32_address options = record {
  chain_id = chain_id;
  bech32_address = bech32_address;
  signer = options.signer;
  erc20 = options.erc20;
  nft = options.nft;
}

pub record QueryPaginationOption : Type 0 where
  pub skip : Option ℕ
  pub number : Option ℕ

module _ (refs : Model RefRow RefWhere ref_matches) where
  unfoldable pub count_account_transactions :
      (chain_id bech32_address : Str) → AccountTransactionFilterOption → ℕ
  unfolding get_account_transactions_where_condition
  count_account_transactions chain_id bech32_address options =
      refs.count (get_account_transactions_where_condition chain_id bech32_address options)

  unfoldable pub get_account_transactions :
      (chain_id bech32_address : Str)
      → AccountTransactionFilterOption
      → QueryPaginationOption
      → List RecentTx
  unfolding get_account_transactions_where_condition
  get_account_transactions chain_id bech32_address options pagination_options =
      map (λ r. r.recent_accounts_transaction)
        (refs.find_many (record {
          condition = get_account_transactions_where_condition chain_id bech32_address options;
          order_by = (λ r. r.height) ∷ [];
          skip = pagination_options.skip;
          number = pagination_options.number;
        }))

-- services/db/transactions.ts

-- A row of `transaction`, with the name of its chain.
pub record TransactionRow : Type 0 where
  pub chain_id : Str
  pub chain_name : Str
  pub hash : Str
  pub height : ℕ
  pub epoch : ℕ
  pub message_types : List Str
  pub tx_type : Str
  pub action : Option Str
  pub value : List Str

pub data TransactionWhere : Type 0 where
  of_chain : Str → TransactionWhere
  of_chain_since : Str → (epoch : ℕ) → TransactionWhere
  with_hashes : List Str → TransactionWhere

unfoldable pub transaction_matches : TransactionWhere → TransactionRow → Bool
unfolding ◌===◌
transaction_matches (of_chain id) t = t.chain_id === id
transaction_matches (of_chain_since id epoch) t = t.chain_id === id && ltb epoch t.epoch
transaction_matches (with_hashes hashes) t = any (λ h. t.hash === h) hashes

module _ (txs : Model TransactionRow TransactionWhere transaction_matches) where
  unfoldable pub get_transactions : (chain_id : Str) → QueryPaginationOption → List TransactionRow
  get_transactions chain_id pagination_options = txs.find_many (record {
    condition = of_chain chain_id;
    order_by = (λ t. t.epoch) ∷ (λ t. t.height) ∷ [];
    skip = pagination_options.skip;
    number = pagination_options.number;
  })

  unfoldable pub count_transactions : (chain_id : Str) → ℕ
  count_transactions chain_id = txs.count (of_chain chain_id)

  unfoldable pub get_chain_id_and_tx_hash_by_tx_hashes : List Str → List TransactionRow
  unfolding compare_units
  get_chain_id_and_tx_hash_by_tx_hashes tx_hashes =
      txs.find_many (plain_query (with_hashes (sort compare_units tx_hashes)))

  unfoldable pub get_tx_hash_and_chain_info_by_tx_hashes : List Str → List TransactionRow
  unfolding compare_units
  get_tx_hash_and_chain_info_by_tx_hashes tx_hashes =
      txs.find_many (plain_query (with_hashes (sort compare_units tx_hashes)))

  unfoldable pub count_transactions_since_timestamp : (chain_id : Str) → (since : ℕ) → ℕ
  count_transactions_since_timestamp chain_id since = txs.count (of_chain_since chain_id since)
