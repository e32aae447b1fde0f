-- ===== src/Account/Governor.antt =====
-- What the page of an address shows above its tabs: ValidatorDetail.tsx, AddressPageTitle.tsx,
-- TokenSummary.tsx and AddressPage.tsx in web-app/src/components/client/address, and DetailItem.tsx
-- in web-app/src/components/commons. `format` stands for `formatBlockchainAmount`, `whole` for the
-- same with no decimals behind the point, and `percent` for the same with -2 decimals, all of the
-- package `big.js`.
use dymension_rollapp_block.Common.{
  ℕ, ◌≡◌, ◌↔◌, refl, Bool, true, false, ◌||◌, ◌&&◌, Option, none, some, List, [], ◌∷◌, ◌++◌,
  if◌then◌else◌,
}
use dymension_rollapp_block.Common.Text.{Str, text}
use dymension_rollapp_block.Common.Decimal.{to_string}
use dymension_rollapp_block.Common.Dict.{Dict, get}
use dymension_rollapp_block.Store.State.{DenomMetadata}
use dymension_rollapp_block.Format.{ContractAccountInfo, RpcAccount, get_amount, get_account_type}
use dymension_rollapp_block.Table.Staking.{delegated_amount}

pub data DetailValue : Type 0 where
  shown_text shown_link : Str → DetailValue

-- An item has no value where it shows a skeleton, or where its value is undefined.
pub record DetailItem : Type 0 where
  pub label : Str
  pub value : Option DetailValue

unfoldable pub detail_item : (label : Str) → Option DetailValue → (loading : Bool) → DetailItem
detail_item label value true = record { label = label; value = none }
detail_item label value false = record { label = label; value = value }

-- `getAccountType` of an account that is there replaces the first text; an account that is not
-- leaves the title as it is.
pub data Prototype : Type 0 where
  is_governor account_progress : Prototype
  is_named : Str → Prototype

abbrev pub initial_prototype : (is_validator : Bool) → Prototype
initial_prototype true = is_governor
initial_prototype false = account_progress

unfoldable pub prototype_effect : Prototype → Option RpcAccount → Prototype
unfolding get_account_type
prototype_effect prototype none = prototype
prototype_effect prototype (some account) = is_named (get_account_type account)

-- `title || prototype`
unfoldable pub page_title : (title : Option Str) → Prototype → Prototype
page_title none prototype = prototype
page_title (some []) prototype = prototype
page_title (some (c ∷ s)) prototype = is_named (c ∷ s)

-- The addresses below the title, each with what its copy button copies and its code encodes.
unfoldable pub subtitle : (bech32_address : Str) (evm_address : Option Str) → List Str
subtitle bech32_address none = bech32_address ∷ []
subtitle bech32_address (some []) = bech32_address ∷ []
subtitle bech32_address (some (c ∷ s)) = bech32_address ∷ (c ∷ s) ∷ []

-- `Validator` of consts/rpcResTypes.ts, as far as it is read here
pub record GovernorStaking : Type 0 where
  pub rewards : Option Str
  pub staking : Dict Str
  pub validator_commission : Option Str
  pub validator_outstanding_rewards : Option Str

pub record Governor : Type 0 where
  pub moniker : Str
  pub website : Str
  pub details : Str
  pub tokens : Str
  pub rate : Str
  pub staking : GovernorStaking

-- `validator?.…`, of a text
abbrev pub of_governor : (Governor → Str) → Option Governor → Option Str
of_governor read none = none
of_governor read (some g) = some (read g)

-- The default of the amount is 0.
abbrev pub or_zero : Option Str → Str
or_zero none = text "0"
or_zero (some s) = s

abbrev pub website_value : Option Str → DetailValue
website_value none = shown_text (text "-")
website_value (some []) = shown_text (text "-")
website_value (some (c ∷ s)) = shown_link (c ∷ s)

abbrev pub details_value : Option Str → DetailValue
details_value none = shown_text (text "-")
details_value (some []) = shown_text (text "-")
details_value (some (c ∷ s)) = shown_text (c ∷ s)

-- `get(validator, path, '0')`
abbrev pub staking_amount : (GovernorStaking → Option Str) → Option Governor → Str
staking_amount read none = text "0"
staking_amount read (some g) = or_zero (read g.staking)

abbrev pub self_stake : (bech32_address : Str) → Option Governor → Str
self_stake bech32_address none = text "0"
self_stake bech32_address (some g) = or_zero (get g.staking.staking bech32_address)

-- `denomsMetadata[bondDenom]`, where the RollApp may name no bond
abbrev pub bond_of : Dict DenomMetadata → Option Str → Option DenomMetadata
bond_of denoms_metadata none = none
bond_of denoms_metadata (some bond_denom) = get denoms_metadata bond_denom

abbrev pub bond_decimals : Option DenomMetadata → ℕ
bond_decimals none = 0
bond_decimals (some m) = m.highest_exponent

pub record GovernorPage : Type 0 where
  pub title : Prototype
  pub subtitle : List Str
  pub items : List DetailItem

module _ (format : Str → ℕ → Str) (whole : Str → ℕ → Str) (percent : Str → Str) where
  unfoldable pub governor_items :
      (bech32_address : Str)
      → Option Governor
      → Option DenomMetadata
      → (loading : Bool) → List DetailItem
  unfolding detail_item delegated_amount get_amount get
  governor_items bech32_address validator bond loading =
      let amount : Str → Option DetailValue =
        λ s. some (shown_text (delegated_amount format bond s)) in
      detail_item (text "Website") (some (website_value (of_governor (λ g. g.website) validator)))
        loading
      ∷ detail_item (text "Details") (some (details_value (of_governor (λ g. g.details) validator)))
          loading
      ∷ detail_item (text "Voting Power")
          (some (
            shown_text
              (whole (or_zero (of_governor (λ g. g.tokens) validator)) (bond_decimals bond))))
          loading
      ∷ detail_item (text "Comissions")
          (some (shown_text (percent (or_zero (of_governor (λ g. g.rate) validator)) ++ text "%")))
          loading
      ∷ detail_item (text "Self Stake") (amount (self_stake bech32_address validator)) loading
      ∷ detail_item (text "Rewards")
          (amount (get_amount (staking_amount (λ s. s.rewards) validator))) loading
      ∷ detail_item (text "Governor Outstanding Rewards")
          (amount (get_amount (staking_amount (λ s. s.validator_outstanding_rewards) validator)))
          loading
      ∷ detail_item (text "Governor Commission")
          (amount (get_amount (staking_amount (λ s. s.validator_commission) validator))) loading
      ∷ []

  -- No account is given to the title.
  unfoldable pub validator_detail :
      (bech32_address : Str) (evm_address bond_denom : Option Str)
      → (validator : Option Governor) (validator_loading : Bool)
      → (denoms_metadata : Dict DenomMetadata) (denoms_metadata_loading : Bool) → GovernorPage
  unfolding page_title prototype_effect subtitle governor_items get
  validator_detail bech32_address evm_address bond_denom validator validator_loading denoms_metadata
        denoms_metadata_loading =
      record {
        title =
            page_title (of_governor (λ g. g.moniker) validator)
              (prototype_effect (initial_prototype true) none);
        subtitle = subtitle bech32_address evm_address;
        items =
            governor_items bech32_address validator (bond_of denoms_metadata bond_denom)
              (validator_loading || denoms_metadata_loading);
      }

-- A page with the title of an account. `notFound` is what the page of a token calls where the account
-- is loaded and has no contract.
pub record AccountView : Type 0 where
  pub title : Prototype
  pub subtitle : List Str
  pub token : Option (List DetailItem)
  pub is_not_found : Bool

abbrev pub text_value : Option Str → Option DetailValue
text_value none = none
text_value (some s) = some (shown_text s)

abbrev pub number_value : Option ℕ → Option DetailValue
number_value none = none
number_value (some n) = some (shown_text (to_string n))

unfoldable pub token_summary : ContractAccountInfo → (loading : Bool) → List DetailItem
unfolding detail_item to_string
token_summary contract loading =
    detail_item (text "Name") (text_value contract.name) loading
    ∷ detail_item (text "Symbol") (text_value contract.symbol) loading
    ∷ detail_item (text "Decimals") (number_value contract.decimals) loading
    ∷ []

-- `Object.keys(contract).length`, of an object with these keys
abbrev pub has_keys : ContractAccountInfo → Bool
has_keys contract = elim contract.name [
  | some name ↦ true
  | none ↦ elim contract.symbol [
    | some symbol ↦ true
    | none ↦ elim contract.decimals [ some decimals ↦ true | none ↦ false ]
  ]
]

-- The contract of a token.
unfoldable pub token_of : Option RpcAccount → Option ContractAccountInfo
token_of none = none
token_of (some account) = elim account.contract [
  | none ↦ none
  | some contract ↦ if has_keys contract then some contract else none
]

abbrev pub is_missing_token : Option RpcAccount → Bool
is_missing_token none = false
is_missing_token (some account) = elim (token_of (some account)) [ none ↦ true | some c ↦ false ]

-- What the page shows behind the first run of its effects.
unfoldable pub account_view :
    (bech32_address : Str) (evm_address : Option Str) (token_mode : Bool)
    → (account : Option RpcAccount) (loading : Bool) → AccountView
unfolding page_title prototype_effect subtitle token_summary token_of
account_view bech32_address evm_address token_mode account loading = record {
  title = page_title none (prototype_effect (initial_prototype false) account);
  subtitle = subtitle bech32_address evm_address;
  token = elim (token_of account) [
    | none ↦ none
    | some contract ↦ some (token_summary contract loading)
  ];
  is_not_found = token_mode && is_missing_token account;
}

missing_iff :
    (o : Option ContractAccountInfo) (f : ContractAccountInfo → List DetailItem)
    → (elim o [ none ↦ true | some c ↦ false ] ≡ true)
      ↔ (elim o [ none ↦ none | some contract ↦ some (f contract) ] ≡ none)
missing_iff none f = ((λ e. refl), λ e. refl)
missing_iff (some c) f = ((λ e. cc), λ e. cc)

-- As soon as the account is loaded, the page of a token shows the token's items, unless it is not
-- found.
pub token_page_decided :
    (bech32_address : Str) (evm_address : Option Str) (account : RpcAccount) (loading : Bool)
    → let view = account_view bech32_address evm_address true (some account) loading in
      (view.is_not_found ≡ true) ↔ (view.token ≡ none)
unfolding account_view
token_page_decided bech32_address evm_address account loading =
    missing_iff (token_of (some account)) (λ contract. token_summary contract loading)
