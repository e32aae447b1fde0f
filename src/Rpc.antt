-- ===== src/Rpc.antt =====
-- web-app/src/utils/rpc.ts: the JSON-RPC requests of the explorer. The body that `callRpc` hands to
-- `fetch` is modelled; `fetch` itself, its options and the abort controller are not.
pub mod Service
pub mod Batch
use dymension_rollapp_block.Common.{ℕ, ◌+◌, List, [], ◌∷◌, map}
use dymension_rollapp_block.Common.Text.{Str, text}

-- The values that stand in `params`.
pub data Param : Type 0 where
  number : ℕ → Param
  string : Str → Param
  strings : List Str → Param

pub record RpcCallParam : Type 0 where
  pub method : Str
  pub params : List Param
  pub jsonrpc : Str

-- `RpcCallParam & { id: number }`
pub record RpcCallParamFull : Type 0 where
  pub param : RpcCallParam
  pub open param use *
  pub id : ℕ

-- One call, or an array of calls.
pub data Calls : Type 0 where
  one : RpcCallParam → Calls
  many : List RpcCallParam → Calls

pub data Body : Type 0 where
  single : RpcCallParamFull → Body
  batch : List RpcCallParamFull → Body

-- `params.map((param, i) => ({ ...param, id: i + 1 }))`, from the index `i` on
unfoldable pub number_from : ℕ → List RpcCallParam → List RpcCallParamFull
number_from i [] = []
number_from i (param ∷ params) = record { param = param; id = i + 1 } ∷ number_from (i + 1) params

-- The body that `callRpc` sends.
unfoldable pub call_rpc : Calls → Body
unfolding number_from
call_rpc (one param) = single (record { param = param; id = 1 })
call_rpc (many params) = batch (number_from 0 params)

abbrev call : Str → List Param → RpcCallParam
call method params = record { method = method; params = params; jsonrpc = text "2.0" }

unfoldable pub get_chain_info_param : RpcCallParam
get_chain_info_param = call (text "be_getChainInfo") []

unfoldable pub get_latest_block_number_param : RpcCallParam
get_latest_block_number_param = call (text "be_getLatestBlockNumber") []

unfoldable pub get_block_by_number_param : ℕ → RpcCallParam
get_block_by_number_param block_no = call (text "be_getBlockByNumber") (number block_no ∷ [])

unfoldable pub get_recent_blocks_param : ℕ → ℕ → RpcCallParam
get_recent_blocks_param page page_size =
    call (text "be_getRecentBlocks") (number page ∷ number page_size ∷ [])

unfoldable pub get_transaction_by_hash_param : Str → RpcCallParam
get_transaction_by_hash_param tx_hash = call (text "be_getTransactionByHash") (string tx_hash ∷ [])

unfoldable pub get_account_balances_param : Str → RpcCallParam
get_account_balances_param address = call (text "be_getAccountBalances") (string address ∷ [])

unfoldable pub get_denoms_metadata_param : ℕ → RpcCallParam
get_denoms_metadata_param page_number = call (text "be_getDenomsMetadata") (number page_number ∷ [])

unfoldable pub get_account_param : Str → RpcCallParam
get_account_param address = call (text "be_getAccount") (string address ∷ [])

unfoldable pub get_validator_param : Str → RpcCallParam
get_validator_param address = call (text "be_getValidatorAccount") (string address ∷ [])

unfoldable pub get_validators_param : RpcCallParam
get_validators_param = call (text "be_getValidators") []

unfoldable pub get_gov_proposals_param : ℕ → RpcCallParam
get_gov_proposals_param page = call (text "be_getGovProposals") (number page ∷ [])

unfoldable pub get_gov_proposal_param : ℕ → RpcCallParam
get_gov_proposal_param id = call (text "be_getGovProposal") (number id ∷ [])

unfoldable pub get_erc20_balance_param : Str → List Str → RpcCallParam
get_erc20_balance_param address token_addresses =
    call (text "evm_getErc20Balance") (string address ∷ strings token_addresses ∷ [])

unfoldable pub get_cw20_balance_param : Str → List Str → RpcCallParam
get_cw20_balance_param address token_addresses =
    call (text "evm_getCw20Balance") (string address ∷ strings token_addresses ∷ [])

unfoldable pub get_erc20_contract_info_param : Str → RpcCallParam
get_erc20_contract_info_param contract_address =
    call (text "evm_getErc20ContractInfo") (string contract_address ∷ [])

unfoldable pub get_module_params_param : Str → RpcCallParam
get_module_params_param module_name = call (text "be_getModuleParams") (string module_name ∷ [])
