-- ===== src/Table/Coins/Complete.antt =====
-- Every coin of an account can be turned to.
use dymension_rollapp_block.Common.{
  ℕ, suc, ◌*◌, ◌/◌, ◌%◌, ◌<◌, ◌≤◌, ◌≡◌, inl, inr, refl, sym, ◌∙◌, true, false, some, map, length,
  get_elem?, get_elem?-map, Member, index_of, length-above, arith, lt→ltb, zero,
}
use dymension_rollapp_block.Common.Text.{Str}
use dymension_rollapp_block.Common.Dict.{Dict, keys}
use dymension_rollapp_block.Common.Locale.{Locale}
use dymension_rollapp_block.Common.Sort.{sort_of_member}
use dymension_rollapp_block.Table.{Table, IsReachable, show_pagination}
use dymension_rollapp_block.Table.Slices.{slice_of_page}
use dymension_rollapp_block.Table.Coins.{
  BalanceWithMetadata, to_sorted_denoms, coin_row, address_coins, by_symbol,
}

-- A page whose first row stands before the total can be turned to from the first page.
turned_to :
    {R : Type 0} (t : Table R) (n p : ℕ)
    → t.total ≡ some n
    → t.enable_pagination ≡ true
    → t.page ≡ 0
    → 1 ≤ t.page_size
    → p * t.page_size < n
    → IsReachable t p
unfolding show_pagination
turned_to t n zero e on first size h = inl (sym first)
turned_to t n (suc p) e on first size h =
    let more : t.page_size < n = grind arith in
    inr (rw (e, on) (lt→ltb t.page_size n more), (n, e, h))

in_reach : (i n : ℕ) → i < n → i / 10 * 10 < n
in_reach i n h = omega arith

-- With an account's balances loaded, every coin has a page that can be turned to from the first one,
-- and its row stands on that page.
pub coin_shown :
    (locale : Locale) (format : Str → ℕ → Str) (balances : Dict BalanceWithMetadata) (denom : Str)
    → Member denom (keys balances)
    → (p : ℕ) × (j : ℕ) × IsReachable (address_coins locale format balances 0 false) p
      × (get_elem? (address_coins locale format balances p false).body j
          ≡ some (coin_row locale format balances denom))
unfolding address_coins to_sorted_denoms
coin_shown locale format balances denom m =
    let denoms = to_sorted_denoms locale format balances in
    let listed = sort_of_member (by_symbol locale format balances) denom (keys balances) m in
    let (i, at) = index_of denom denoms listed in
    let row_at = get_elem?-map (coin_row locale format balances) denoms i denom at in
    (
      i / 10,
      i % 10,
      turned_to (address_coins locale format balances 0 false) (length denoms) (i / 10) refl refl
          refl (omega arith) (in_reach i (length denoms) (length-above i denom denoms at)),
      slice_of_page (map (coin_row locale format balances) denoms) 10 i (omega arith) ∙ row_at,
    )
