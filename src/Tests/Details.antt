-- ===== src/Tests/Details.antt =====
-- A search for a transaction of a chain that is not listed.
use dymension_rollapp_block.Common.{◌≡◌, refl, none, some, [], ◌∷◌, here}
use dymension_rollapp_block.Common.Text.{Str, text, starts_with}
use dymension_rollapp_block.Common.Locale.{ascii}
use dymension_rollapp_block.Common.Dict.{get}
use dymension_rollapp_block.Address.{is_tx_hash, is_hex_of}
use dymension_rollapp_block.Search.{Services, SearchResult, TxRow, get_transaction_search_result}
use dymension_rollapp_block.Search.Items.{failed, search_result_content, unlisted_chain_fails}
use dymension_rollapp_block.Tests.Addresses.{plain}

abbrev hash : Str
hash = text "0123456789abcdef0123456789abcdef0123456789abcdef0123456789abcdef"

abbrev postponed : TxRow
postponed = record { chain_id = text "old_1-1"; hash = hash }

abbrev services : Services
services = record { bech32 = plain; get_address = λ s. some s; find_txs = λ hashes. postponed ∷ [] }

abbrev result : SearchResult
result = record {
  rollapps = none;
  blocks = none;
  txs = get_transaction_search_result ascii services hash [];
  accounts = none;
}

unlisted_chain_fails_example : search_result_content ascii result ≡ failed
unfolding get is_tx_hash is_hex_of starts_with
unlisted_chain_fails_example =
    unlisted_chain_fails ascii services hash [] postponed result refl here refl refl
