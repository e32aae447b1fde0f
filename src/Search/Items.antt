-- ===== src/Search/Items.antt =====
-- What the search shows of its results,
-- web-app/src/components/client/search/_SearchResultContent.tsx.
use dymension_rollapp_block.Common.{
  ℕ, ◌≡◌, refl, ap, ◌∙◌, Bool, true, Option, none, some, List, [], ◌∷◌, ◌++◌, map, member-map,
  Member, here, there, inl, inr, length, Option-cases,
}
use dymension_rollapp_block.Common.Text.{Str, text}
use dymension_rollapp_block.Common.Decimal.{to_string}
use dymension_rollapp_block.Common.Dict.{Dict, get}
use dymension_rollapp_block.Common.Locale.{Locale}
use dymension_rollapp_block.Rollapp.{RollappInfo}
use dymension_rollapp_block.Address.{is_tx_hash}
use dymension_rollapp_block.Transaction.Hashes.{get_tx_hashes_query_value}
use dymension_rollapp_block.Search.Block.{BlockSearchResult}
use dymension_rollapp_block.Search.{
  SearchResult, TxSearchResult, AccountSearchResult, TxRow, Services, get_transaction_search_result,
  or_null,
}

-- A card: `value` is what stands below the name in place of the chain id.
pub record Item : Type 0 where
  pub rollapp_name : Str
  pub chain_id : Str
  pub value : Option Str
  pub href : Str
  pub is_favourite : Option Bool

pub record Section : Type 0 where
  pub title : Str
  pub items : List Item

-- `failed` is the `TypeError` of a property of undefined.
pub data Content : Type 0 where
  no_result : Content
  sections : List Section → Content
  failed : Content

abbrev pub item_with : (name chain_id : Str) → Option Str → (href : Str) → Option Bool → Option Item
item_with [] chain_id value href is_favourite = none
item_with (c ∷ name) chain_id value href is_favourite = some (record {
  rollapp_name = c ∷ name;
  chain_id = chain_id;
  value = value;
  href = href;
  is_favourite = is_favourite;
})

-- The items of a list, or none where one of them fails.
unfoldable pub all_items : {A : Type 0} → (A → Option Item) → List A → Option (List Item)
all_items f [] = some []
all_items f (x ∷ xs) =
    let rest = all_items f xs in
    elim (f x) [ none ↦ none | some i ↦ elim rest [ none ↦ none | some is ↦ some (i ∷ is) ] ]

-- A section that is left out has no title.
abbrev pub section :
    {A : Type 0} → Option (List A) → (ℕ → Str) → (A → Option Item) → Option (List Section)
section none title f = some []
section (some xs) title f = elim (all_items f xs) [
  | none ↦ none
  | some is ↦ some (record { title = title (length xs); items = is } ∷ [])
]

abbrev pub joined : Option (List Section) → Option (List Section) → Option (List Section)
joined none b = none
joined (some a) none = none
joined (some a) (some b) = some (a ++ b)

abbrev pub shown_or_failed : Option (List Section) → Content
shown_or_failed none = failed
shown_or_failed (some []) = no_result
shown_or_failed (some (s ∷ ss)) = sections (s ∷ ss)

joined-none : (a : Option (List Section)) → joined a none ≡ none
joined-none none = refl
joined-none (some a) = refl

or_null_of_member : {A : Type 0} (x : A) (xs : List A) → Member x xs → or_null xs ≡ some xs
or_null_of_member x [] m = elim m [ ]
or_null_of_member x (y ∷ xs) m = refl

section-none :
    {A : Type 0} (title : ℕ → Str) (f : A → Option Item) (xs : List A)
    → all_items f xs ≡ none
    → section (some xs) title f ≡ none
section-none title f xs e = rw (e, section) refl

module _ (locale : Locale) where
  open locale use {to_upper_case}

  -- The first letter of the name, which the avatar shows, is undefined where the name is empty.
  unfoldable pub item_of : RollappInfo → Option Str → (href : Str) → Option Bool → Option Item
  item_of i value href is_favourite =
      item_with (to_upper_case i.name) i.chain_id value href is_favourite

  unfoldable pub tx_item : TxSearchResult → Option Item
  unfolding item_of
  tx_item t = elim t.rollapp_info [
    | none ↦ none
    | some i ↦ item_of i (some t.tx_hash) (i.path ++ text "/tx/" ++ t.tx_hash) none
  ]

  abbrev pub titled : Str → ℕ → Str
  titled name n = name ++ text " (" ++ to_string n ++ text ")"

  unfoldable pub block_section : Option BlockSearchResult → Option (List Section)
  unfolding item_of all_items
  block_section none = some []
  block_section (some b) = section (some b.rollapp_infos) (titled (text "Block")) (λ i.
      item_of i (some (b'#' ∷ to_string b.block)) (i.path ++ text "/block/" ++ to_string b.block)
        none)

  unfoldable pub account_section : Option AccountSearchResult → Option (List Section)
  unfolding item_of all_items
  account_section none = some []
  account_section (some a) =
      section (some a.rollapp_infos) (λ n. text "Address")
        (λ i. item_of i (some a.account) (i.path ++ text "/address/" ++ a.account) none)

  unfoldable pub rollapp_section : Option (List RollappInfo) → Option (List Section)
  unfolding item_of all_items
  rollapp_section rollapps =
      section rollapps (titled (text "Rollapps")) (λ i. item_of i none i.path (some i.is_favorite))

  unfoldable pub tx_section : Option (List TxSearchResult) → Option (List Section)
  unfolding tx_item all_items
  tx_section txs = section txs (titled (text "Transaction")) tx_item

  unfoldable pub search_result_content : SearchResult → Content
  unfolding rollapp_section block_section tx_section account_section
  search_result_content r = shown_or_failed (
      joined (rollapp_section r.rollapps)
        (joined (block_section r.blocks) (joined (tx_section r.txs) (account_section r.accounts))))

  one_fails :
      {A : Type 0} (f : A → Option Item) (x : A) (xs : List A)
      → Member x xs
      → f x ≡ none
      → all_items f xs ≡ none
  unfolding all_items
  one_fails f x xs here e = rw (e, all_items) refl
  one_fails f x xs (there {y = y} {xs = ys} m) e = elim (Option-cases (f y)) [
    | inl h ↦ rw (h, all_items) refl
    | inr (i, h) ↦ rw (h, all_items, one_fails f x ys m e) refl
  ]

  tx_section-none :
      (t : TxSearchResult) (txs : List TxSearchResult)
      → Member t txs
      → t.rollapp_info ≡ none
      → tx_section (some txs) ≡ none
  unfolding tx_section
  tx_section-none t txs m missing =
      let fails : tx_item t ≡ none = rw (missing, tx_item) refl in
      section-none (titled (text "Transaction")) tx_item txs (one_fails tx_item t txs m fails)

  -- Where the database has a transaction of the hash whose chain is not among the RollApps of the
  -- page, as a chain that is postponed is not, the results are not shown: the search fails.
  pub unlisted_chain_fails :
      (services : Services) (search_text : Str) (infos : Dict RollappInfo) (row : TxRow)
      (r : SearchResult)
      → is_tx_hash search_text ≡ true
      → Member row (services.find_txs (get_tx_hashes_query_value locale search_text))
      → get infos row.chain_id ≡ none
      → r.txs ≡ get_transaction_search_result locale services search_text infos
      → search_result_content r ≡ failed
  unfolding search_result_content get_transaction_search_result
  unlisted_chain_fails services search_text infos row r is_hash m missing same =
      let rows = services.find_txs (get_tx_hashes_query_value locale search_text) in
      let found : TxRow → TxSearchResult =
        λ i. record { tx_hash = i.hash; rollapp_info = get infos i.chain_id } in
      let at = member-map found row rows m in
      let txs : r.txs ≡ some (map found rows) =
        same ∙ rw is_hash (or_null_of_member (found row) (map found rows) at) in
      let rollapps = rollapp_section r.rollapps in
      let blocks = block_section r.blocks in
      let accounts = account_section r.accounts in
      let section_fails : tx_section r.txs ≡ none =
        ap tx_section txs ∙ tx_section-none (found row) (map found rows) at missing in
      ap (λ t. shown_or_failed (joined rollapps (joined blocks (joined t accounts)))) section_fails
      ∙ ap (λ t. shown_or_failed (joined rollapps t)) (joined-none blocks)
      ∙ ap shown_or_failed (joined-none rollapps)
