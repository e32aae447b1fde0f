-- ===== src/Block/Recent.antt =====
-- The blocks of a page, web-app/src/components/client/block/BlockListPage, and the latest blocks,
-- web-app/src/components/client/block/BlockOverview.tsx. What says how long ago a time was is a
-- parameter.
use dymension_rollapp_block.Common.{
  ℕ, zero, suc, Bool, true, false, ◌&&◌, Option, none, some, List, [], ◌∷◌, ◌++◌, map, get_elem?,
  if◌then◌else◌,
}
use dymension_rollapp_block.Common.Text.{Str, text}
use dymension_rollapp_block.Common.Decimal.{to_string}
use dymension_rollapp_block.Pagination.{SearchParam, get_page_and_page_size_from_string_param}
use dymension_rollapp_block.Pathname.{get_new_path_by_rollapp}
use dymension_rollapp_block.Address.{get_short_address}
use dymension_rollapp_block.Hooks.Recent.{RecentBlock, RecentBlocks, Proposer}
use dymension_rollapp_block.Table.{Table}
use dymension_rollapp_block.Block.{TxsDisplay, plain, link, txs_href}

-- `proposer ? proposer.moniker || <ShortAddress …/> : '-'`
unfoldable pub proposer_text : Option Proposer → Str
unfolding get_short_address
proposer_text none = text "-"
proposer_text (some proposer) = elim proposer.moniker [
  | [] ↦ get_short_address proposer.consensus_address
  | c ∷ s ↦ c ∷ s
]

-- The address of the page of a block.
unfoldable pub link_to_block_no : (pathname block_no : Str) → Str
unfolding get_new_path_by_rollapp
link_to_block_no pathname block_no =
    get_new_path_by_rollapp pathname (text "/block") ++ b'/' ∷ block_no

unfoldable pub get_txs_display : RecentBlock → (pathname : Str) → TxsDisplay
unfolding txs_href to_string
get_txs_display block pathname = elim block.txs_count [
  | zero ↦ plain (text "0")
  | suc n ↦ link (txs_href pathname block.height) (to_string (suc n))
]

pub record BlockRow : Type 0 where
  pub href : Str
  pub block_no : Str
  pub time : ℕ
  pub proposer : Str
  pub txs : TxsDisplay

unfoldable pub block_row : (pathname : Str) → RecentBlock → BlockRow
unfolding link_to_block_no to_string proposer_text get_txs_display
block_row pathname b = record {
  href = link_to_block_no pathname (to_string b.height);
  block_no = to_string b.height;
  time = b.time_epoch_utc;
  proposer = proposer_text b.proposer;
  txs = get_txs_display b pathname;
}

abbrev pub blocks_of : Option RecentBlocks → List RecentBlock
blocks_of none = []
blocks_of (some recent) = recent.blocks

abbrev pub latest_of : Option RecentBlocks → Option ℕ
latest_of none = none
latest_of (some recent) = some recent.latest_block

unfoldable pub block_list_table :
    (pathname : Str)
    → Option RecentBlocks
    → (loading : Bool) → (page page_size : ℕ) → Table BlockRow
unfolding block_row
block_list_table pathname recent_blocks loading page page_size = record {
  body = map (block_row pathname) (blocks_of recent_blocks);
  total = latest_of recent_blocks;
  page = page;
  page_size = page_size;
  loading = loading;
  loading_items = none;
  enable_pagination = true;
}

-- The cards above the table, of which two have no value yet, and the table.
pub record BlockListPage : Type 0 where
  pub cards : List (Str × Option Str)
  pub blocks : Table BlockRow

abbrev pub number_text : Option ℕ → Str
number_text none = []
number_text (some n) = to_string n

-- A card that loads shows a skeleton.
unfoldable pub block_summary_card : (label : Str) → (loading : Bool) → Str → Str × Option Str
block_summary_card label loading children = (label, if loading then none else some children)

-- `recent` stands for the hook at a page and a page size: what is shown, and whether it loads.
unfoldable pub block_list_page :
    (recent : ℕ → ℕ → Option RecentBlocks × Bool)
    → (pathname : Str) → (page_size_param page_param : SearchParam) → (txs_in_24h : ℕ)
    → BlockListPage
unfolding get_page_and_page_size_from_string_param block_list_table block_summary_card to_string
block_list_page recent pathname page_size_param page_param txs_in_24h =
    let (page_size, page) =
      get_page_and_page_size_from_string_param page_size_param page_param none in
    let (recent_blocks, loading) = recent page page_size in
    record {
      cards =
          block_summary_card (text "Block Height") loading (number_text (latest_of recent_blocks))
          ∷ block_summary_card (text "Block Count (Last 24H)") loading (text "-")
          ∷ block_summary_card (text "Tx Count (Last 24H)") loading (to_string txs_in_24h)
          ∷ block_summary_card (text "Block Time") loading (text "-")
          ∷ [];
      blocks = block_list_table pathname recent_blocks loading page page_size;
    }

abbrev pub default_block_overview_size : ℕ
default_block_overview_size = 4

pub record BlockCard : Type 0 where
  pub block_no : Str
  pub href : Str
  pub txs : Str
  pub time : Option Str
  pub proposer : Str

-- The cards of the blocks; skeletons; or the `TypeError` of blocks that are null and do not load.
pub data BlockOverview : Type 0 where
  skeletons_of : ℕ → BlockOverview
  cards_of : List BlockCard → BlockOverview
  fails_on_null : BlockOverview

unfoldable pub overview_cards :
    (pathname : Str) → (time_display : List Str) → (index : ℕ) → List RecentBlock → List BlockCard
unfolding to_string link_to_block_no proposer_text
overview_cards pathname time_display idx [] = []
overview_cards pathname time_display idx (b ∷ blocks) =
    record {
      block_no = to_string b.height;
      href = link_to_block_no pathname (to_string b.height);
      txs = to_string b.txs_count ++ text " Transactions";
      time = get_elem? time_display idx;
      proposer = proposer_text b.proposer;
    }
    ∷ overview_cards pathname time_display (suc idx) blocks

abbrev pub is_empty : Option RecentBlocks → Bool
is_empty none = true
is_empty (some recent) = elim recent.blocks [ [] ↦ true | _ ∷ _ ↦ false ]

unfoldable pub block_overview :
    (pathname : Str)
    → Option RecentBlocks
    → (recent_blocks_loading : Bool) → (time_display : List Str) → BlockOverview
unfolding overview_cards
block_overview pathname recent_blocks recent_blocks_loading time_display =
    if recent_blocks_loading && is_empty recent_blocks
    then skeletons_of default_block_overview_size
    else elim recent_blocks [
      | none ↦ fails_on_null
      | some recent ↦ cards_of (overview_cards pathname time_display 0 recent.blocks)
    ]

-- The effect: the times of the blocks, which it sets where there are blocks.
unfoldable pub get_time_display :
    (duration : ℕ → Str) → Option RecentBlocks → (time_display : List Str) → List Str
get_time_display duration none time_display = time_display
get_time_display duration (some recent) time_display =
    map (λ b. duration b.time_epoch_utc) recent.blocks
