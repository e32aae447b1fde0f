-- ===== src/Block/Opened.antt =====
-- The list that a block's count of transactions leads to.
use dymension_rollapp_block.Common.{
  ℕ, suc, ◌≡◌, ◌≢◌, refl, ap, ◌∙◌, true, false, some, [], ◌∷◌, ◌++◌, length, ◌==◌, arith,
}
use dymension_rollapp_block.Common.Text.{Str, text}
use dymension_rollapp_block.Common.Decimal.{
  to_string, parse_int, is_digits, parse_int-to_string, is_digits-to_string,
}
use dymension_rollapp_block.Pagination.{SearchParam, string, num, get_number_from_string_param}
use dymension_rollapp_block.Pathname.{get_new_path_by_rollapp}
use dymension_rollapp_block.Pathname.Segments.{NoSlash, IsBehind, rollapp_path_kept}
use dymension_rollapp_block.Database.{Model}
use dymension_rollapp_block.Database.Accounts.{
  TransactionRow, TransactionWhere, transaction_matches,
}
use dymension_rollapp_block.Account.Transactions.{of_block, transactions_page}
use dymension_rollapp_block.Hooks.Recent.{RecentBlock}
use dymension_rollapp_block.Table.Block.{BlockDetail}
use dymension_rollapp_block.Block.{
  BlockQuery, link, txs_href, get_detail_txs_display, transactions_text,
}
use dymension_rollapp_block.Block.Recent.{get_txs_display}

-- A link leads to the page of the transactions of the RollApp whose address is `seg`, which stands
-- at `/<seg>/txs`, and that page, with the query of the link, lists those of the block.
abbrev pub Opens :
    Model TransactionRow TransactionWhere transaction_matches
    → (chain_id seg : Str) → BlockQuery
    → (page_size_param page_param : SearchParam) → (height : ℕ) → Type 0
Opens txs chain_id seg href page_size_param page_param height =
    (href.path ≡ b'/' ∷ (seg ++ text "/txs"))
    × (transactions_page txs chain_id (string href.block) page_size_param page_param
        ≡ of_block height)

number_read :
    (s : Str) (n : ℕ)
    → is_digits s ≡ true
    → parse_int s ≡ n
    → get_number_from_string_param (string s) ≡ num n
unfolding get_number_from_string_param
number_read s n d p = rw (d, p) refl

block_listed :
    (txs : Model TransactionRow TransactionWhere transaction_matches) (chain_id block : Str)
    (page_size_param page_param : SearchParam) (h : ℕ)
    → is_digits block ≡ true
    → parse_int block ≡ suc h
    → transactions_page txs chain_id (string block) page_size_param page_param ≡ of_block (suc h)
unfolding transactions_page
block_listed txs chain_id block page_size_param page_param h d p =
    rw (number_read block (suc h) d p, transactions_page) refl

txs_href-block : (pathname : Str) (h : ℕ) → (txs_href pathname h).block ≡ to_string h
unfolding txs_href
txs_href-block pathname h = refl

txs_href-path :
    (pathname : Str) (h : ℕ)
    → (txs_href pathname h).path ≡ get_new_path_by_rollapp pathname (text "/txs")
unfolding txs_href
txs_href-path pathname h = refl

href-listed :
    (txs : Model TransactionRow TransactionWhere transaction_matches) (chain_id pathname : Str)
    (page_size_param page_param : SearchParam) (h : ℕ)
    → transactions_page txs chain_id
        (string (txs_href pathname (suc h)).block)
        page_size_param
        page_param
      ≡ of_block (suc h)
href-listed txs chain_id pathname page_size_param page_param h =
    let same = txs_href-block pathname (suc h) in
    block_listed txs chain_id (txs_href pathname (suc h)).block page_size_param page_param h
      (ap is_digits same ∙ is_digits-to_string (suc h))
      (ap parse_int same ∙ parse_int-to_string (suc h))

detail_link :
    (block : BlockDetail) (pathname : Str) (n : ℕ)
    → length block.txs ≡ suc n
    → get_detail_txs_display (some block) pathname
      ≡ link (txs_href pathname block.height) (transactions_text (suc n))
unfolding get_detail_txs_display
detail_link block pathname n l =
    let nonzero : (suc n == 0) ≡ false = ground arith in rw (l, nonzero) refl

recent_link :
    (recent : RecentBlock) (pathname : Str) (n : ℕ)
    → recent.txs_count ≡ suc n
    → get_txs_display recent pathname ≡ link (txs_href pathname recent.height) (to_string (suc n))
unfolding get_txs_display
recent_link recent pathname n c = rw c refl

-- On a page of a RollApp, the count of the transactions of a block in the list of blocks, or of a
-- block on its own page, is a link where it is not 0. Both lead to the same address: for a block above
-- 0 it is that of the RollApp's transactions, and the page there lists those of that block.
pub txs_link_opened :
    (txs : Model TransactionRow TransactionWhere transaction_matches) (chain_id seg rest : Str)
    (page_size_param page_param : SearchParam) (recent : RecentBlock) (block : BlockDetail)
    (h n : ℕ)
    → seg ≢ []
    → NoSlash seg
    → IsBehind rest
    → recent.height ≡ suc h
    → block.height ≡ suc h
    → recent.txs_count ≡ suc n
    → length block.txs ≡ suc n
    → (href : BlockQuery) × (get_txs_display recent (b'/' ∷ seg ++ rest)
        ≡ link href (to_string (suc n)))
      × (get_detail_txs_display (some block) (b'/' ∷ seg ++ rest)
          ≡ link href (transactions_text (suc n)))
      × Opens txs chain_id seg href page_size_param page_param (suc h)
txs_link_opened txs chain_id seg rest page_size_param page_param recent block h n ne s b r d c l =
    let pathname = b'/' ∷ seg ++ rest in
    let (_, path, _) = rollapp_path_kept seg rest (text "/txs") ne s b refl in
    (
      txs_href pathname (suc h),
      recent_link recent pathname n c ∙ ap (λ k. link (txs_href pathname k) (to_string (suc n))) r,
      detail_link block pathname n l
          ∙ ap (λ k. link (txs_href pathname k) (transactions_text (suc n))) d,
      (
        txs_href-path pathname (suc h) ∙ path,
        href-listed txs chain_id pathname page_size_param page_param h,
      ),
    )
