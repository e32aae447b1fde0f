-- ===== src/Tests/Blocks.antt =====
-- The page of a block and its links.
use dymension_rollapp_block.Common.{◌≡◌, refl, true, none, some, [], ◌∷◌, ◌++◌, arith}
use dymension_rollapp_block.Common.Text.{text}
use dymension_rollapp_block.Common.Decimal.{to_string}
use dymension_rollapp_block.Pagination.{nan, undefined}
use dymension_rollapp_block.Hooks.{runs, initial_hook, play}
use dymension_rollapp_block.Hooks.Queries.{use_block_detail}
use dymension_rollapp_block.Hooks.Recent.{RecentBlock}
use dymension_rollapp_block.Table.Block.{BlockDetail}
use dymension_rollapp_block.Database.{Model}
use dymension_rollapp_block.Database.Accounts.{
  TransactionRow, TransactionWhere, transaction_matches,
}
use dymension_rollapp_block.Search.Block.{parse_int_prefix}
use dymension_rollapp_block.Block.{
  BlockQuery, link, loads, block_shown, block_page, block_detail_page, get_detail_txs_display,
  transactions_text,
}
use dymension_rollapp_block.Block.Recent.{get_txs_display}
use dymension_rollapp_block.Block.Opened.{Opens, txs_link_opened}
use dymension_rollapp_block.Block.Numbers.{leading, letter_block_misread}
use dymension_rollapp_block.Block.Loading.{block_of_hook, unnumbered_block_loads}
use dymension_rollapp_block.Tests.Databases.{model}

abbrev listed : Model TransactionRow TransactionWhere transaction_matches
listed = model transaction_matches []

abbrev recent : RecentBlock
recent = record {
  height = 12;
  hash = text "AB";
  time_epoch_utc = 1700000000;
  txs_count = 1;
  proposer = none;
}

abbrev block : BlockDetail
block = record {
  height = 12;
  time_epoch_utc = 1700000000;
  txs = record { hash = text "CD"; type_ = text "cosmos"; messages = []; evm_action = none } ∷ [];
}

txs_link_opened_example :
    (href : BlockQuery) × (get_txs_display recent (b'/' ∷ text "nim" ++ text "/blocks")
      ≡ link href (to_string 1))
    × (get_detail_txs_display (some block) (b'/' ∷ text "nim" ++ text "/blocks")
        ≡ link href (transactions_text 1))
    × Opens listed (text "nim_2-1") (text "nim") href undefined undefined 12
txs_link_opened_example =
    txs_link_opened listed (text "nim_2-1") (text "nim") (text "/blocks") undefined undefined recent
      block 11 0 (ground arith) (ground arith) refl refl refl refl refl

letter_block_misread_example :
    block_page (text "nim") (text "12" ++ b'a' ∷ text "b3") ≡ block_shown (leading (text "12")) nan
letter_block_misread_example =
    letter_block_misread (text "nim") (text "12") b'a' (text "b3") refl (refl, refl, refl) refl

unnumbered_block_loads_example :
    let h =
      play
        (λ b. true)
        use_block_detail
        initial_hook
        (runs (some (record { rpc_url = text "u" })) 0 ∷ []) in
    block_detail_page (text "ff") h.thrown (block_of_hook h) h.loading (text "/nim/block/ff")
    ≡ loads
unfolding parse_int_prefix
unnumbered_block_loads_example =
    unnumbered_block_loads (λ b. true) (text "ff") (text "/nim/block/ff")
      (runs (some (record { rpc_url = text "u" })) 0 ∷ []) refl (refl, tt)
