-- ===== src/Table/Tokens.antt =====
-- web-app/src/components/client/address/AddressTokens.tsx: the ERC-20 tokens of an account.
use dymension_rollapp_block.Common.{
  ℕ, ◌+◌, ◌-◌, ◌*◌, ◌≤◌, ◌≡◌, inl, inr, Bool, true, some, List, map, length, length-take, arith,
  drop,
}
use dymension_rollapp_block.Common.Text.{Str}
use dymension_rollapp_block.Table.{Table, slice, show_pagination, IsReachable}
use dymension_rollapp_block.Table.Coins.{coins_page_size}

-- `Erc20Balance` of consts/rpcResTypes.ts
pub record Erc20Balance : Type 0 where
  pub balance : Str
  pub contract : Str
  pub decimals : ℕ
  pub display : Str

pub record TokenRow : Type 0 where
  pub address : Str
  pub display : Str
  pub amount : Str

-- The contracts of a page, which `useTokenBalances` is asked for.
unfoldable pub sliced_contracts : List Str → ℕ → List Str
unfolding slice
sliced_contracts contracts page =
    slice contracts (page * coins_page_size) ((page + 1) * coins_page_size)

module _ (format : Str → ℕ → Str) where
  abbrev pub token_row : Erc20Balance → TokenRow
  token_row b = record {
    address = b.contract;
    display = b.display;
    amount = format b.balance b.decimals;
  }

  -- The table, with the balances that the hook has for the page.
  unfoldable pub address_tokens : List Erc20Balance → (page : ℕ) (loading : Bool) → Table TokenRow
  address_tokens token_balances page loading = record {
    body = map token_row token_balances;
    total = some (length token_balances);
    page = page;
    page_size = coins_page_size;
    loading = loading;
    loading_items = some 1;
    enable_pagination = true;
  }

  length-sliced : (contracts : List Str) (page : ℕ) → length (sliced_contracts contracts page) ≤ 10
  unfolding sliced_contracts
  length-sliced contracts page =
      let step : (page + 1) * 10 - page * 10 ≡ 10 = omega arith in
      rw step (omega (arith, length-take 10 (drop (page * 10) contracts)))

  -- Where the server returns no more balances than the contracts of a page that it is asked for, no
  -- other page can be turned to, however many tokens the account has.
  pub tokens_stuck :
      (contracts : List Str) (token_balances : List Erc20Balance) (page other : ℕ) (loading : Bool)
      → length token_balances ≤ length (sliced_contracts contracts page)
      → IsReachable (address_tokens token_balances page loading) other
      → other ≡ page
  unfolding address_tokens show_pagination
  tokens_stuck contracts token_balances page other loading h (inl same) = same
  tokens_stuck contracts token_balances page other loading h (inr (shown, rest)) =
      absurd (ground (arith, length-sliced contracts page))
