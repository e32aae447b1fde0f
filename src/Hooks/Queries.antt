-- ===== src/Hooks/Queries.antt =====
-- What differs between the fetching hooks of web-app/src/hooks.
use dymension_rollapp_block.Common.{
  ℕ, Bool, true, false, not, ◌&&◌, none, some, List, [], ◌∷◌, ◌==◌, any, if◌then◌else◌,
}
use dymension_rollapp_block.Common.Text.{Str, text, ◌===◌, starts_with}
use dymension_rollapp_block.Rpc.Service.{
  get_account, get_accounts, get_block_by_number, get_chain_info, get_gov_proposal,
  get_gov_proposals, get_validator, get_validators, get_module_params, get_erc20_balance,
  get_cw20_balance,
}
use dymension_rollapp_block.Hooks.{Query}

-- `if (s)` of a string
abbrev pub is_nonempty : Str → Bool
is_nonempty s = not (s === [])

unfoldable pub use_account : Query Str
use_account = record {
  guard = is_nonempty;
  calls = get_account;
  throw_error = true;
  failure = some (text "Failed to fetch Account");
  reads_field = false;
}

-- An array is never falsy.
unfoldable pub use_accounts : Query (List Str)
use_accounts = record {
  guard = λ addresses. true;
  calls = get_accounts;
  throw_error = true;
  failure = some (text "Failed to fetch Accounts");
  reads_field = false;
}

unfoldable pub use_block_detail : Query ℕ
use_block_detail = record {
  guard = λ block_no. not (block_no == 0);
  calls = get_block_by_number;
  throw_error = true;
  failure = some (text "Failed to fetch Block Detail");
  reads_field = false;
}

unfoldable pub use_chain_info : Query (Unit {0})
use_chain_info = record {
  guard = λ _. true;
  calls = λ _. get_chain_info;
  throw_error = true;
  failure = some (text "Failed to fetch Chain Info");
  reads_field = false;
}

unfoldable pub use_gov_proposal : Query ℕ
use_gov_proposal = record {
  guard = λ id. true;
  calls = get_gov_proposal;
  throw_error = true;
  failure = some (text "Failed to fetch Gov Proposal");
  reads_field = false;
}

unfoldable pub use_gov_proposals : Query ℕ
use_gov_proposals = record {
  guard = λ page. true;
  calls = get_gov_proposals;
  throw_error = true;
  failure = some (text "Failed to fetch Gov Proposals");
  reads_field = false;
}

unfoldable pub use_validator : Query Str
use_validator = record {
  guard = is_nonempty;
  calls = get_validator;
  throw_error = true;
  failure = some (text "Failed to fetch Governor");
  reads_field = false;
}

unfoldable pub use_validators : Query (Unit {0})
use_validators = record {
  guard = λ _. true;
  calls = λ _. get_validators;
  throw_error = true;
  failure = some (text "Failed to fetch Governors List");
  reads_field = false;
}

-- consts/params.ts
unfoldable pub modules : List Str
modules =
    text "auth"
    ∷ text "bank"
    ∷ text "distribution"
    ∷ text "erc20"
    ∷ text "evm"
    ∷ text "gov"
    ∷ text "hub-genesis"
    ∷ text "ibc-transfer"
    ∷ text "mint"
    ∷ text "sequencers"
    ∷ text "staking"
    ∷ []

-- A response that holds an error is data here, and a failed call is only logged.
unfoldable pub use_module_params : Query Str
unfolding modules
use_module_params = record {
  guard = λ module_name. any (λ m. m === module_name) modules;
  calls = get_module_params;
  throw_error = false;
  failure = none;
  reads_field = false;
}

abbrev has_some : List Str → Bool
has_some [] = false
has_some (_ ∷ _) = true

-- The address and the token addresses. An address with `0x` in front asks for ERC-20 balances. The
-- result is `balances.erc20Balances` or `balances.cw20Balances`.
unfoldable pub use_token_balances : Query (Str × List Str)
use_token_balances = record {
  guard = λ (address, token_addresses). is_nonempty address && has_some token_addresses;
  calls = λ (address, token_addresses).
      if starts_with address (text "0x")
      then get_erc20_balance address token_addresses
      else get_cw20_balance address token_addresses;
  throw_error = true;
  failure = some (text "Failed to fetch Token Balances");
  reads_field = true;
}
