-- ===== src/Table/Block.antt =====
-- web-app/src/components/client/transaction/TransactionListByBlockNo.tsx: the transactions of a block,
-- a page at a time.
use dymension_rollapp_block.Common.{
  ℕ, ◌+◌, ◌-◌, ◌*◌, ◌≤◌, ◌<◌, ◌≡◌, ◌≢◌, ◌⊎◌, inl, inr, refl, ap, Bool, true, Option, none, some,
  List, [], ◌∷◌, map, length, length-take, length-drop, take, drop, arith,
}
use dymension_rollapp_block.Common.Text.{Str}
use dymension_rollapp_block.Pagination.{
  SearchParam, get_page_and_page_size_from_string_param, get_offset_from_page_and_page_size, num,
}
use dymension_rollapp_block.Pagination.Bounds.{pagination_bounds}
use dymension_rollapp_block.Table.{Table, slice}

-- `TransactionInBlock` of consts/rpcResTypes.ts, as far as it is read
pub record TransactionInBlock : Type 0 where
  pub hash : Str
  pub type_ : Str
  pub messages : List Str
  pub evm_action : Option Str

-- `Block` of consts/rpcResTypes.ts
pub record BlockDetail : Type 0 where
  pub height : ℕ
  pub time_epoch_utc : ℕ
  pub txs : List TransactionInBlock

-- `TransactionFields` of components/client/transaction/TransactionListTable.tsx
pub record TransactionFields : Type 0 where
  pub height : ℕ
  pub hash : Str
  pub epoch : ℕ
  pub tx_type : Str
  pub message_types : List Str
  pub action : Option Str
  pub value : Option (List Str)

-- `tx.evmTx?.action || null`
abbrev action_or_null : Option Str → Option Str
action_or_null none = none
action_or_null (some []) = none
action_or_null (some (c ∷ s)) = some (c ∷ s)

unfoldable pub fields_of : BlockDetail → TransactionInBlock → TransactionFields
fields_of block tx = record {
  height = block.height;
  hash = tx.hash;
  epoch = block.time_epoch_utc;
  tx_type = tx.type_;
  message_types = tx.messages;
  action = action_or_null tx.evm_action;
  value = none;
}

abbrev count_of : Option BlockDetail → ℕ
count_of none = 0
count_of (some block) = length block.txs

abbrev body_of : Option BlockDetail → (page_size page : ℕ) → List TransactionFields
body_of none page_size page = []
body_of (some block) page_size page =
    map (fields_of block) (slice block.txs (page * page_size) ((page + 1) * page_size))

-- A total that is undefined is 0 in `TransactionListTable`.
unfoldable pub transaction_list_by_block_no :
    (page_size_param page_param : SearchParam)
    → Option BlockDetail
    → (loading : Bool) → Table TransactionFields
unfolding get_page_and_page_size_from_string_param fields_of slice
transaction_list_by_block_no page_size_param page_param block loading =
    let (page_size, page) =
      get_page_and_page_size_from_string_param page_size_param page_param (some (count_of block)) in
    record {
      body = body_of block page_size page;
      total = some (count_of block);
      page = page;
      page_size = page_size;
      loading = loading;
      loading_items = none;
      enable_pagination = true;
    }

slice_nonempty :
    {A : Type 0} (xs : List A) (from to : ℕ) → from < to → from < length xs → slice xs from to ≢ []
unfolding slice
slice_nonempty xs from to h k e =
    let none_left : length (take (to - from) (drop from xs)) ≡ 0 = ap length e in
    omega (arith, length-take (to - from) (drop from xs), length-drop from xs)

page_starts :
    (size page total : ℕ)
    → 1 ≤ total
    → (get_offset_from_page_and_page_size (num page) size < total)
      ⊎ ((total ≡ 0) × (get_offset_from_page_and_page_size (num page) size ≡ 0))
    → page * size < total
unfolding get_offset_from_page_and_page_size
page_starts size page total some_tx (inl starts) = starts
page_starts size page total some_tx (inr (none_, first)) = absurd (omega arith)

map_nonempty : {A B : Type 0} (f : A → B) (xs : List A) → xs ≢ [] → map f xs ≢ []
map_nonempty f [] ne e = ne refl
map_nonempty f (x ∷ xs) ne e = cc

length_nonempty : {A : Type 0} (xs : List A) → xs ≢ [] → 1 ≤ length xs
length_nonempty [] ne = absurd (ne refl)
length_nonempty (x ∷ xs) ne = omega arith

-- Whatever the query of the address is, the page of a block that has transactions shows some.
pub block_page_nonempty :
    (page_size_param page_param : SearchParam) (block : BlockDetail) (loading : Bool)
    → block.txs ≢ []
    → (transaction_list_by_block_no page_size_param page_param (some block) loading).body ≢ []
unfolding transaction_list_by_block_no
block_page_nonempty page_size_param page_param block loading ne =
    let total = length block.txs in
    let pages = get_page_and_page_size_from_string_param page_size_param page_param (some total) in
    let some_tx = length_nonempty block.txs ne in
    let (size, small, offset) =
      pagination_bounds page_size_param page_param total pages.0 pages.1 refl in
    let starts = page_starts pages.0 pages.1 total some_tx offset in
    map_nonempty (fields_of block) _
      (slice_nonempty block.txs (pages.1 * pages.0) ((pages.1 + 1) * pages.0) (grind arith) starts)
