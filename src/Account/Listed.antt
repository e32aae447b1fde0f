-- ===== src/Account/Listed.antt =====
-- The lists of transactions, page by page.
use dymension_rollapp_block.Common.{
  ℕ, ◌*◌, ◌/◌, ◌%◌, ◌≤◌, ◌<◌, ◌≡◌, refl, ap, ◌∙◌, Bool, true, none, some, [], ◌∷◌, map, Member,
  Bool-cases, inl, inr, index_of, length-above, get_elem?, get_elem?-map, arith,
}
use dymension_rollapp_block.Common.Text.{text, ===_self, eq_of_===, ◌===◌}
use dymension_rollapp_block.Common.Decimal.{to_string}
use dymension_rollapp_block.Pagination.{
  SearchParam, undefined, null, string, num, get_offset_from_page_and_page_size,
}
use dymension_rollapp_block.Pagination.Links.{row_reachable}
use dymension_rollapp_block.Rollapp.{RollappInfo}
use dymension_rollapp_block.Database.{AreToldApart, Model, Query}
use dymension_rollapp_block.Database.Accounts.{
  TransactionRow, TransactionWhere, transaction_matches, of_chain, get_transactions,
  count_transactions, RefRow, RefWhere, ref_matches, get_account_transactions_where_condition,
  get_account_transactions, count_account_transactions,
}
use dymension_rollapp_block.Table.Slices.{place}
use dymension_rollapp_block.Account.{
  PageServices, todo_fields, transactions_of, get_filter_options_from_tx_type,
}
use dymension_rollapp_block.Account.Transactions.{listed_fields, rollapp_transactions}

-- The row at a place of the whole result stands on the page of that place.
row_of_page :
    {Row Where R : Type 0} {matches : Where → Row → Bool} (model : Model Row Where matches)
    (f : Row → R) (q : Query Row Where) (size i : ℕ) (r : Row)
    → AreToldApart matches model.table q.condition q.order_by
    → 1 ≤ size
    → get_elem? (model.find_many (record q { skip = none; number = none })) i ≡ some r
    → get_elem?
        (map f (
          model.find_many (record q {
            skip = some (get_offset_from_page_and_page_size (num (i / size)) size);
            number = some size;
          })))
        (i % size)
      ≡ some (f r)
unfolding get_offset_from_page_and_page_size
row_of_page model f q size i r apart h at =
    let page = model.find_many (record q { skip = some (i / size * size); number = some size }) in
    let placed =
      ap (λ rs. get_elem? rs (i % size)) (model.paged q (i / size * size) size apart)
      ∙ place (model.find_many (record q { skip = none; number = none })) size i h in
    get_elem?-map f page (i % size) r (placed ∙ at)

-- Where the table does not change and no two transactions of a RollApp have the same time and height,
-- every transaction of it stands on a page of its list: with
-- a page size between 1 and 100 there is a page number whose link shows the transaction's row.
pub transaction_listed :
    (txs : Model TransactionRow TransactionWhere transaction_matches) (t : TransactionRow)
    (size : ℕ)
    → Member t txs.table
    → AreToldApart transaction_matches txs.table
        (of_chain t.chain_id)
        ((λ t. t.epoch) ∷ (λ t. t.height) ∷ [])
    → 1 ≤ size
    → size ≤ 100
    → (p : ℕ) × (j : ℕ) × (j < size)
      × (get_elem?
            (rollapp_transactions txs t.chain_id
              (string (to_string size))
              (string (to_string p))).body
            j
          ≡ some (listed_fields t))
unfolding rollapp_transactions get_transactions count_transactions transaction_matches
transaction_listed txs t size m apart small large =
    let q : Query TransactionRow TransactionWhere = record {
      condition = of_chain t.chain_id;
      order_by = (λ t. t.epoch) ∷ (λ t. t.height) ∷ [];
      skip = none;
      number = none;
    } in
    let listed = (txs.found_iff t (of_chain t.chain_id) q.order_by).1 (m, ===_self t.chain_id) in
    let (i, at) = index_of t (txs.find_many q) listed in
    let total = txs.counted q refl refl in
    let above = length-above i t (txs.find_many q) at in
    let (link, shows) =
      row_reachable size i (txs.count (of_chain t.chain_id)) (i / size) small large (grind arith) in
    (
      i / size,
      i % size,
      grind arith,
      rw link (row_of_page txs listed_fields q size i t apart small at),
    )

-- The transactions of a tab: those that the account signed, or that moved a token of the kind.
abbrev pub IsInTab : SearchParam → RefRow → Type 0
IsInTab (string s) r =
    (s ≡ text "senttxs" → r.signer ≡ some true)
    × (s ≡ text "tokentransfers" → r.erc20 ≡ some true)
    × (s ≡ text "nfttransfers" → r.nft ≡ some true)
IsInTab tab r = Unit

tab_matches :
    (tab : SearchParam) (r : RefRow)
    → IsInTab tab r
    → ref_matches
        (get_account_transactions_where_condition r.chain_id r.bech32_address
          (get_filter_options_from_tx_type tab))
        r
      ≡ true
unfolding ref_matches get_account_transactions_where_condition get_filter_options_from_tx_type
tab_matches undefined r h = rw (===_self r.chain_id, ===_self r.bech32_address) refl
tab_matches null r h = rw (===_self r.chain_id, ===_self r.bech32_address) refl
tab_matches (string s) r (sent, tokens, nfts) =
    let chain = ===_self r.chain_id in
    let address = ===_self r.bech32_address in
    elim (Bool-cases (s === text "senttxs")) [
      | inl a ↦ rw (chain, address, a, sent (eq_of_=== s _ a)) refl
      | inr a ↦ elim (Bool-cases (s === text "tokentransfers")) [
        | inl b ↦ rw (chain, address, a, b, tokens (eq_of_=== s _ b)) refl
        | inr b ↦ elim (Bool-cases (s === text "nfttransfers")) [
          | inl c ↦ rw (chain, address, a, b, c, nfts (eq_of_=== s _ c)) refl
          | inr c ↦ rw (chain, address, a, b, c) refl
        ]
      ]
    ]

-- Where the table does not change and no two transactions of a tab of an account have the same height,
-- every transaction of the tab stands on a page of it: with a page size between 1 and 100 there is a
-- page number whose link shows its row.
pub account_transaction_listed :
    (services : PageServices) (rollapp_info : RollappInfo) (tab : SearchParam) (r : RefRow)
    (size : ℕ)
    → Member r services.refs.table
    → r.chain_id ≡ rollapp_info.chain_id
    → IsInTab tab r
    → AreToldApart ref_matches services.refs.table
        (get_account_transactions_where_condition r.chain_id r.bech32_address
          (get_filter_options_from_tx_type tab))
        ((λ r. r.height) ∷ [])
    → 1 ≤ size
    → size ≤ 100
    → (p : ℕ) × (j : ℕ) × (j < size)
      × (get_elem?
            (transactions_of services rollapp_info r.bech32_address tab
              (string (to_string size))
              (string (to_string p))).body
            j
          ≡ some (todo_fields r.recent_accounts_transaction))
unfolding transactions_of get_account_transactions count_account_transactions
account_transaction_listed services rollapp_info tab r size m chain in_tab apart small large =
    let condition =
      get_account_transactions_where_condition r.chain_id r.bech32_address
        (get_filter_options_from_tx_type tab) in
    let refs = services.refs in
    let q : Query RefRow RefWhere = record {
      condition = condition;
      order_by = (λ r. r.height) ∷ [];
      skip = none;
      number = none;
    } in
    let listed = (refs.found_iff r condition q.order_by).1 (m, tab_matches tab r in_tab) in
    let (i, at) = index_of r (refs.find_many q) listed in
    let total = refs.counted q refl refl in
    let above = length-above i r (refs.find_many q) at in
    let (link, shows) =
      row_reachable size i (refs.count condition) (i / size) small large (grind arith) in
    let shown = row_of_page refs (λ r. r.recent_accounts_transaction) q size i r apart small at in
    (
      i / size,
      i % size,
      grind arith,
      rw (← chain, link) (get_elem?-map todo_fields _ (i % size) _ shown),
    )
