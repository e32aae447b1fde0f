-- ===== src/Table/Staking.antt =====
-- The delegations and the NFT contracts of an account: AddressStaking.tsx and AddressNfts.tsx in
-- web-app/src/components/client/address. `format` stands for `formatBlockchainAmount`, of the package
-- `big.js`.
use Prim.Native.Nat.{Ordering}
use dymension_rollapp_block.Common.{
  ℕ, ◌+◌, ◌*◌, Bool, true, Option, none, some, List, [], ◌∷◌, ◌++◌, map, length,
}
use dymension_rollapp_block.Common.Text.{Str, text}
use dymension_rollapp_block.Common.Dict.{Dict, get}
use dymension_rollapp_block.Common.Locale.{Locale}
use dymension_rollapp_block.Common.Sort.{sort}
use dymension_rollapp_block.Store.State.{DenomMetadata}
use dymension_rollapp_block.Format.{format_rpc_amount}
use dymension_rollapp_block.Table.{Table, slice}
use dymension_rollapp_block.Table.Coins.{coins_page_size}

pub record AccountStaking : Type 0 where
  pub rewards : Str
  pub staking : Dict Str

pub record StakingRow : Type 0 where
  pub validator : Str
  pub amount : Str

-- The total of the rewards stands below the rows.
pub record StakingTable : Type 0 where
  pub delegations : Table StakingRow
  pub total_reward : Str

-- `denomsMetadata[denoms.bond]`
unfoldable pub bond_metadata : (denoms : Dict Str) → Dict DenomMetadata → Option DenomMetadata
unfolding get
bond_metadata denoms denoms_metadata = elim (get denoms (text "bond")) [
  | none ↦ none
  | some bond ↦ get denoms_metadata bond
]

module _ (format : Str → ℕ → Str) where
  -- A template writes a symbol of no metadata as `undefined`.
  unfoldable pub delegated_amount : Option DenomMetadata → Str → Str
  delegated_amount none amount = format amount 0 ++ b' ' ∷ text "undefined"
  delegated_amount (some m) amount = format amount m.highest_exponent ++ b' ' ∷ m.symbol

  unfoldable pub staking_rows : Option DenomMetadata → Dict Str → List StakingRow
  unfolding delegated_amount
  staking_rows metadata [] = []
  staking_rows metadata ((validator, amount) ∷ staking) =
      record { validator = validator; amount = delegated_amount metadata amount }
      ∷ staking_rows metadata staking

module _ (locale : Locale) (format : Str → ℕ → Str) where
  unfoldable pub address_staking :
      (denoms : Dict Str)
      → Dict DenomMetadata
      → AccountStaking
      → (page : ℕ) → (loading : Bool) → StakingTable
  unfolding bond_metadata staking_rows slice format_rpc_amount
  address_staking denoms denoms_metadata info page loading = record {
    delegations = record {
      body =
          slice (staking_rows format (bond_metadata denoms denoms_metadata) info.staking)
            (page * coins_page_size) ((page + 1) * coins_page_size);
      total = some (length info.staking);
      page = page;
      page_size = coins_page_size;
      loading = loading;
      loading_items = some 1;
      enable_pagination = true;
    };
    total_reward = format_rpc_amount locale format info.rewards denoms_metadata;
  }

-- `Account` of consts/rpcResTypes.ts, as far as it is read here
pub record NftContract : Type 0 where
  pub evm : Str
  pub cosmos : Str
  pub name : Option Str

-- `name || ''`
abbrev pub name_or_empty : NftContract → Str
name_or_empty a = elim a.name [ none ↦ [] | some s ↦ s ]

-- `evm || cosmos`
abbrev pub shown_address : NftContract → Str
shown_address a = elim a.evm [ [] ↦ a.cosmos | c ∷ s ↦ c ∷ s ]

pub record NftRow : Type 0 where
  pub address : Str
  pub display : Option Str

module _ (locale : Locale) where
  open locale use {locale_compare}

  -- The contracts with a name come first, by their names, and the others by their addresses.
  unfoldable pub by_contract : NftContract → NftContract → Ordering
  by_contract a b = elim (name_or_empty a) [
    | [] ↦ elim (name_or_empty b) [
      | [] ↦ locale_compare (shown_address a) (shown_address b)
      | _ ∷ _ ↦ Ordering.gt
    ]
    | c ∷ s ↦ elim (name_or_empty b) [ [] ↦ Ordering.lt | d ∷ t ↦ locale_compare (c ∷ s) (d ∷ t) ]
  ]

  abbrev pub nft_row : NftContract → NftRow
  nft_row a = record { address = shown_address a; display = a.name }

  unfoldable pub address_nfts : List NftContract → (page : ℕ) → (loading : Bool) → Table NftRow
  unfolding by_contract slice
  address_nfts nfts page loading =
      let sorted = sort by_contract nfts in
      record {
        body = slice (map nft_row sorted) (page * coins_page_size) ((page + 1) * coins_page_size);
        total = some (length sorted);
        page = page;
        page_size = coins_page_size;
        loading = loading;
        loading_items = some 1;
        enable_pagination = true;
      }
