-- ===== src/Account/Summary.antt =====
-- The tabs of an address: AddressSummary.tsx and AddressTransactionsSection.tsx in
-- web-app/src/components/client/address.
use dymension_rollapp_block.Common.{
  ◌≡◌, refl, Option, none, some, List, [], ◌∷◌, ◌++◌, map, Member, All, All-append, All-member,
}
use dymension_rollapp_block.Common.Text.{Str, text}
use dymension_rollapp_block.Common.Dict.{Dict}
use dymension_rollapp_block.Account.{Account}
use dymension_rollapp_block.Table.Staking.{AccountStaking}

pub data SummaryTab : Type 0 where
  coins_tab tokens_tab nfts_tab staking_tab : SummaryTab

-- What the RPC server says of the account, as far as it is read.
pub record RpcAccountData : Type 0 where
  pub staking : Option AccountStaking

-- What a tab shows; `needs_account` is the `TypeError` of an account that is null.
pub data SummaryContent : Type 0 where
  of_coins : SummaryContent
  of_tokens : Account → (evm_address : Option Str) → SummaryContent
  of_nfts : Account → SummaryContent
  of_staking : Option AccountStaking → SummaryContent
  needs_account : SummaryContent

unfoldable pub get_content :
    (evm_address : Option Str)
    → Option Account
    → Option RpcAccountData
    → SummaryTab
    → SummaryContent
get_content evm_address account_info rpc_data coins_tab = of_coins
get_content evm_address none rpc_data tokens_tab = needs_account
get_content evm_address (some account) rpc_data tokens_tab = of_tokens account evm_address
get_content evm_address none rpc_data nfts_tab = needs_account
get_content evm_address (some account) rpc_data nfts_tab = of_nfts account
get_content evm_address account_info none staking_tab = needs_account
get_content evm_address account_info (some rpc) staking_tab = of_staking rpc.staking

-- A tab where a list is not empty.
abbrev pub tab_if : {A : Type 0} → SummaryTab → List A → List SummaryTab
tab_if tab [] = []
tab_if tab (x ∷ xs) = tab ∷ []

abbrev pub account_tabs : Option Account → List SummaryTab
account_tabs none = []
account_tabs (some account) =
    tab_if tokens_tab account.balance_on_erc20_contracts
    ++ tab_if nfts_tab account.balance_on_nft_contracts

-- `rewards || Object.keys(staking).length`
abbrev pub reward_tabs : (rewards : Str) → Dict Str → List SummaryTab
reward_tabs [] delegations = tab_if staking_tab delegations
reward_tabs (c ∷ s) delegations = staking_tab ∷ []

abbrev pub staking_tabs : Option AccountStaking → List SummaryTab
staking_tabs none = []
staking_tabs (some staking) = reward_tabs staking.rewards staking.staking

abbrev pub rpc_tabs : Option RpcAccountData → List SummaryTab
rpc_tabs none = []
rpc_tabs (some rpc) = staking_tabs rpc.staking

unfoldable pub address_summary_tabs : Option Account → Option RpcAccountData → List SummaryTab
address_summary_tabs account_info rpc_data =
    coins_tab ∷ account_tabs account_info ++ rpc_tabs rpc_data

-- The tabs of the transactions: a label and the address that the tab leads to, by the value of
-- `txType`.
unfoldable pub transaction_tabs : List (Str × Str)
transaction_tabs =
    ([], text "Transactions")
    ∷ (text "senttxs", text "Sent Transactions")
    ∷ (text "tokentransfers", text "Token Transfers")
    ∷ (text "nfttransfers", text "NFT Transfers")
    ∷ []

unfoldable pub transactions_section : (pathname : Str) → List (Str × Str)
unfolding transaction_tabs
transactions_section pathname =
    map (λ (t : Str × Str). (t.1, pathname ++ text "?txType=" ++ t.0)) transaction_tabs

-- The data that a tab reads.
abbrev pub HasContent : SummaryContent → Type 0
HasContent of_coins = Unit
HasContent (of_tokens account evm_address) =
    (c : Str) × (cs : List Str) × (account.balance_on_erc20_contracts ≡ c ∷ cs)
HasContent (of_nfts account) =
    (c : Str) × (cs : List Str) × (account.balance_on_nft_contracts ≡ c ∷ cs)
HasContent (of_staking staking) = (s : AccountStaking) × (staking ≡ some s)
HasContent needs_account = ⊥

tab_if-All :
    {A : Type 0} (P : SummaryTab → Type 0) (tab : SummaryTab) (xs : List A)
    → ((x : A) (rest : List A) → xs ≡ x ∷ rest → P tab)
    → All P (tab_if tab xs)
tab_if-All P tab [] f = tt
tab_if-All P tab (x ∷ xs) f = (f x xs refl, tt)

module _ (evm_address : Option Str) where
  abbrev IsFilledTab : Option Account → Option RpcAccountData → SummaryTab → Type 0
  IsFilledTab account_info rpc_data tab =
      HasContent (get_content evm_address account_info rpc_data tab)

  account_tabs-All :
      (account_info : Option Account) (rpc_data : Option RpcAccountData)
      → All (IsFilledTab account_info rpc_data) (account_tabs account_info)
  unfolding get_content
  account_tabs-All none rpc_data = tt
  account_tabs-All (some account) rpc_data =
      let P = IsFilledTab (some account) rpc_data in
      All-append P (tab_if tokens_tab account.balance_on_erc20_contracts) _
        (tab_if-All P tokens_tab account.balance_on_erc20_contracts (λ x rest e. (x, rest, e)))
        (tab_if-All P nfts_tab account.balance_on_nft_contracts (λ x rest e. (x, rest, e)))

  reward_tabs-All :
      (P : SummaryTab → Type 0) (rewards : Str) (delegations : Dict Str)
      → P staking_tab
      → All P (reward_tabs rewards delegations)
  reward_tabs-All P [] delegations h = tab_if-All P staking_tab delegations (λ x rest e. h)
  reward_tabs-All P (c ∷ s) delegations h = (h, tt)

  staking_tabs-All :
      (P : SummaryTab → Type 0) (staking : Option AccountStaking)
      → ((s : AccountStaking) → staking ≡ some s → P staking_tab)
      → All P (staking_tabs staking)
  staking_tabs-All P none f = tt
  staking_tabs-All P (some s) f = reward_tabs-All P s.rewards s.staking (f s refl)

  rpc_tabs-All :
      (account_info : Option Account) (rpc_data : Option RpcAccountData)
      → All (IsFilledTab account_info rpc_data) (rpc_tabs rpc_data)
  unfolding get_content
  rpc_tabs-All account_info none = tt
  rpc_tabs-All account_info (some rpc) =
      staking_tabs-All (IsFilledTab account_info (some rpc)) rpc.staking (λ s e. (s, e))

  -- Each tab that the summary of an address offers has the data that it shows: the account with at
  -- least one ERC-20 contract or NFT contract, or the delegations.
  pub summary_tab_filled :
      (account_info : Option Account) (rpc_data : Option RpcAccountData) (tab : SummaryTab)
      → Member tab (address_summary_tabs account_info rpc_data)
      → HasContent (get_content evm_address account_info rpc_data tab)
  unfolding address_summary_tabs get_content
  summary_tab_filled account_info rpc_data tab m =
      let P = IsFilledTab account_info rpc_data in
      All-member P tab (address_summary_tabs account_info rpc_data)
        (
          tt,
          All-append P (account_tabs account_info) (rpc_tabs rpc_data)
              (account_tabs-All account_info rpc_data) (rpc_tabs-All account_info rpc_data),
        )
        m
