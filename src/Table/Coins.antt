-- ===== src/Table/Coins.antt =====
-- The coins of an account: `toSortedDenoms` of web-app/src/utils/address.ts, the balances of
-- web-app/src/components/client/address/AddressPage.tsx and the table of AddressCoins.tsx beside it.
-- `format` stands for `formatBlockchainAmount`, of the package `big.js`.
pub mod Complete
use Prim.Native.Nat.{Ordering}
use dymension_rollapp_block.Common.{
  ℕ, ◌+◌, ◌*◌, Bool, true, false, Option, none, some, List, [], ◌∷◌, map, length,
}
use dymension_rollapp_block.Common.Text.{Str, text}
use dymension_rollapp_block.Common.Dict.{Dict, get, set, keys}
use dymension_rollapp_block.Common.Locale.{Locale}
use dymension_rollapp_block.Common.Sort.{sort}
use dymension_rollapp_block.Store.State.{DenomMetadata}
use dymension_rollapp_block.Table.{Table, slice}

-- `ADDRESS_SUMMARY_COINS_PAGE_SIZE` of consts/setting.ts
abbrev pub coins_page_size : ℕ
coins_page_size = 10

pub record BalanceWithMetadata : Type 0 where
  pub balance : Str
  pub metadata : Option DenomMetadata

-- The balances of an account, each with the metadata of its coin: the `reduce` of the page.
unfoldable pub balances_with_metadata :
    Dict DenomMetadata → Dict BalanceWithMetadata → Dict Str → Dict BalanceWithMetadata
unfolding get set
balances_with_metadata denoms_metadata final [] = final
balances_with_metadata denoms_metadata final ((denom, balance) ∷ balances) =
    balances_with_metadata denoms_metadata
      (set final denom (record { balance = balance; metadata = get denoms_metadata denom }))
      balances

abbrev pub symbol_or : Str → Option BalanceWithMetadata → Str
symbol_or denom none = denom
symbol_or denom (some b) = elim b.metadata [ none ↦ denom | some m ↦ m.symbol ]

-- The argument is a key of the object.
unfoldable pub get_symbol_to_display : Str → Dict BalanceWithMetadata → Str
unfolding get
get_symbol_to_display denom account_balances = symbol_or denom (get account_balances denom)

pub record CoinRow : Type 0 where
  pub denom : Str
  pub amount : Str

module _ (locale : Locale) (format : Str → ℕ → Str)
    (account_balances : Dict BalanceWithMetadata) where
  abbrev pub by_symbol : Str → Str → Ordering
  by_symbol a b =
      locale.locale_compare (get_symbol_to_display a account_balances)
        (get_symbol_to_display b account_balances)

  unfoldable pub to_sorted_denoms : List Str
  unfolding get_symbol_to_display
  to_sorted_denoms = sort by_symbol (keys account_balances)

  -- The symbol and the exponent of the metadata, or the denom and 0.
  unfoldable pub coin_row : Str → CoinRow
  unfolding get
  coin_row denom = elim (get account_balances denom) [
    | none ↦ record { denom = denom; amount = [] }
    | some b ↦ elim b.metadata [
      | none ↦ record { denom = denom; amount = format b.balance 0 }
      | some m ↦ record { denom = m.symbol; amount = format b.balance m.highest_exponent }
    ]
  ]

  unfoldable pub address_coins : (page : ℕ) (loading : Bool) → Table CoinRow
  unfolding to_sorted_denoms coin_row slice
  address_coins page loading = record {
    body =
        slice (map coin_row to_sorted_denoms) (page * coins_page_size)
          ((page + 1) * coins_page_size);
    total = some (length to_sorted_denoms);
    page = page;
    page_size = coins_page_size;
    loading = loading;
    loading_items = some 1;
    enable_pagination = true;
  }
