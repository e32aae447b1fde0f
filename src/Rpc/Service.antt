-- ===== src/Rpc/Service.antt =====
-- web-app/src/services/rpc.service.ts: the calls of the service, and what is made of a response.
use dymension_rollapp_block.Common.{
  ℕ, Bool, true, false, ◌&&◌, Option, none, some, List, [], ◌∷◌, map, any, if◌then◌else◌,
}
use dymension_rollapp_block.Common.Text.{Str}
use dymension_rollapp_block.Rpc.{
  Calls, one, many, get_chain_info_param, get_latest_block_number_param, get_block_by_number_param,
  get_recent_blocks_param, get_transaction_by_hash_param, get_account_balances_param,
  get_denoms_metadata_param, get_account_param, get_validator_param, get_validators_param,
  get_gov_proposals_param, get_gov_proposal_param, get_erc20_balance_param, get_cw20_balance_param,
  get_erc20_contract_info_param, get_module_params_param,
}

-- consts/rpcResTypes.ts

pub record RpcError : Type 0 where
  pub code : ℕ
  pub message : Str

pub record RpcResponse (T : Type 0) : Type 0 where
  pub id : ℕ
  pub result : Option T
  pub error : Option RpcError

pub data Response (T : Type 0) : Type 0 where
  single : RpcResponse T → Response T
  batch : List (RpcResponse T) → Response T

-- An element of a result: `res.result`, or `{ error: res.error }`.
pub data Answer (T : Type 0) : Type 0 where
  value : T → Answer T
  error_of : Option RpcError → Answer T

-- What `getResponseResult` returns: the result of one response, which may be undefined; or the
-- answers of an array; or the thrown errors.
pub data Outcome (T : Type 0) : Type 0 where
  returned : Option T → Outcome T
  failed : RpcError → Outcome T
  answers : List (Answer T) → Outcome T
  throws : List RpcError → Outcome T

abbrev pub has_error : {T : Type 0} → RpcResponse T → Bool
has_error res = elim res.error [ none ↦ false | some _ ↦ true ]

-- `response.filter(res => res.error).map(res => res.error)`
unfoldable pub errors : {T : Type 0} → List (RpcResponse T) → List RpcError
errors [] = []
errors (res ∷ responses) = elim res.error [
  | none ↦ errors responses
  | some e ↦ e ∷ errors responses
]

module _ {T : Type 0} (truthy : T → Bool) where
  -- `res.result || { error: res.error }`: a result that is falsy in JavaScript is passed over.
  unfoldable pub answer : RpcResponse T → Answer T
  answer res = elim res.result [
    | none ↦ error_of res.error
    | some r ↦ if truthy r then value r else error_of res.error
  ]

  unfoldable pub get_response_result : Response T → Bool → Outcome T
  unfolding answer errors
  get_response_result (batch responses) throw_error =
      if any has_error responses && throw_error
      then throws (errors responses)
      else answers (map answer responses)
  get_response_result (single response) throw_error = elim response.error [
    | some e ↦ if throw_error then throws (e ∷ []) else failed e
    | none ↦ returned response.result
  ]

-- The methods of `RpcService`, by the calls that they make.

abbrev pub get_chain_info : Calls
get_chain_info = one get_chain_info_param

abbrev pub get_latest_block_number : Calls
get_latest_block_number = one get_latest_block_number_param

abbrev pub get_block_by_number : ℕ → Calls
get_block_by_number block_number = one (get_block_by_number_param block_number)

abbrev pub get_blocks_by_number : List ℕ → Calls
get_blocks_by_number block_numbers = many (map get_block_by_number_param block_numbers)

abbrev pub get_recent_blocks : ℕ → ℕ → Calls
get_recent_blocks page page_size = one (get_recent_blocks_param page page_size)

abbrev pub get_erc20_contract_info : Str → Calls
get_erc20_contract_info contract_address = one (get_erc20_contract_info_param contract_address)

abbrev pub get_erc20_contract_infos : List Str → Calls
get_erc20_contract_infos contracts_address =
    many (map get_erc20_contract_info_param contracts_address)

abbrev pub get_transaction_by_hash : Str → Calls
get_transaction_by_hash tx_hash = one (get_transaction_by_hash_param tx_hash)

abbrev pub get_account_balances : Str → Calls
get_account_balances address = one (get_account_balances_param address)

-- A page number that is not given is 1.
abbrev pub get_denoms_metadata : Option ℕ → Calls
get_denoms_metadata none = one (get_denoms_metadata_param 1)
get_denoms_metadata (some page_number) = one (get_denoms_metadata_param page_number)

abbrev pub get_account : Str → Calls
get_account address = one (get_account_param address)

abbrev pub get_accounts : List Str → Calls
get_accounts addresses = many (map get_account_param addresses)

abbrev pub get_validator : Str → Calls
get_validator address = one (get_validator_param address)

abbrev pub get_validators : Calls
get_validators = one get_validators_param

abbrev pub get_gov_proposals : ℕ → Calls
get_gov_proposals page = one (get_gov_proposals_param page)

abbrev pub get_gov_proposal : ℕ → Calls
get_gov_proposal id = one (get_gov_proposal_param id)

abbrev pub get_erc20_balance : Str → List Str → Calls
get_erc20_balance address token_addresses = one (get_erc20_balance_param address token_addresses)

abbrev pub get_cw20_balance : Str → List Str → Calls
get_cw20_balance address token_addresses = one (get_cw20_balance_param address token_addresses)

abbrev pub get_module_params : Str → Calls
get_module_params module_name = one (get_module_params_param module_name)
