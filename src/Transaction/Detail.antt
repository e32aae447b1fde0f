-- ===== src/Transaction/Detail.antt =====
-- web-app/src/hooks/useTransactionDetail.ts, and the types of a transaction in
-- consts/rpcResTypes.ts: the transaction of a hash, its kind, and the contracts it deals with.
pub mod Modes
pub mod Contracts
use dymension_rollapp_block.Common.{
  ℕ, Bool, true, false, not, ◌&&◌, Option, none, some, List, [], ◌∷◌, ◌++◌, length, leb, any,
  if◌then◌else◌,
}
use dymension_rollapp_block.Common.Text.{Str, text, ◌===◌}
use dymension_rollapp_block.Common.Dict.{Dict, set}
use dymension_rollapp_block.Rpc.Service.{
  RpcResponse, Response, Answer, Outcome, returned, failed, answers, throws, get_response_result,
}
use dymension_rollapp_block.Transaction.Packets.{TxEvent}
use dymension_rollapp_block.Hooks.Attempt.{
  Reply, Attempt, got, fails, ◌>>=◌, fetch, replied, lost, is_object,
}

pub record Erc20ContractInfo : Type 0 where
  pub name : Str
  pub symbol : Str
  pub decimals : Option ℕ

-- `hash` is `protoContent.hash`, where the message has it, `ctm` is `content.ctm`, and
-- `proto_content` is the content as JSON.
pub record Msg : Type 0 where
  pub type_ : Str
  pub hash : Option Str
  pub ctm : Str
  pub proto_content : Str

pub record EvmTx : Type 0 where
  pub from : Str
  pub gas_price : Str
  pub to : Option Str
  pub value : Option Str
  pub input : Option Str

pub record EvmLog : Type 0 where
  pub address : Str
  pub topics : List Str
  pub data_ : Str
  pub log_index : Str

pub record EvmReceipt : Type 0 where
  pub from : Str
  pub to : Option Str
  pub contract_address : Option Str
  pub status : Str
  pub cumulative_gas_used : Str
  pub effective_gas_price : Str
  pub gas_used : Str
  pub type_ : Str
  pub logs : List EvmLog

pub data TxMode : Type 0 where
  cosmos evm_general_transfer evm_contract_call evm_contract_deploy : TxMode

-- What the hook puts into its map: a contract's information, or `{ error }`, which is truthy too.
abbrev pub ContractMap : Type 0
ContractMap = Dict (Answer Erc20ContractInfo)

pub record Transaction : Type 0 where
  pub hash : Str
  pub height : ℕ
  pub gas_limit : ℕ
  pub gas_used : ℕ
  pub msgs : Option (List Msg)
  pub evm_tx : Option EvmTx
  pub evm_receipt : Option EvmReceipt
  pub mode : TxMode
  pub contracts : Option ContractMap
  pub success : Bool
  pub events : List TxEvent

-- `if (s)` of a string that may be missing
abbrev pub present : Option Str → Bool
present none = false
present (some s) = not (s === [])

-- `input && input.length >= 10`
abbrev pub has_input : Option Str → Bool
has_input none = false
has_input (some input) = leb 10 (length input)

abbrev pub has_logs : List EvmLog → Bool
has_logs [] = false
has_logs (_ ∷ _) = true

-- The branches on `to`, `value`, the input and the logs.
unfoldable pub evm_mode : EvmTx → EvmReceipt → TxMode
evm_mode tx receipt =
    if present tx.to
    then (if present tx.value && not (has_input tx.input) && not (has_logs receipt.logs)
        then evm_general_transfer
        else evm_contract_call)
    else evm_contract_deploy

-- `uniqueContractAddresses.add(address)`: a `Set` keeps the order of insertion.
unfoldable pub add_address : List Str → Str → List Str
add_address addresses address =
    if any (λ a. a === address) addresses then addresses else addresses ++ address ∷ []

unfoldable pub add_log_addresses : List Str → List EvmLog → List Str
unfolding add_address
add_log_addresses addresses [] = addresses
add_log_addresses addresses (log ∷ logs) =
    add_log_addresses (add_address addresses log.address) logs

abbrev pub if_present : Option Str → List Str
if_present none = []
if_present (some []) = []
if_present (some (c ∷ s)) = (c ∷ s) ∷ []

-- The contract that is called or made.
unfoldable pub main_contract : TxMode → EvmTx → EvmReceipt → List Str
main_contract cosmos tx receipt = []
main_contract evm_general_transfer tx receipt = []
main_contract evm_contract_call tx receipt = if_present tx.to
main_contract evm_contract_deploy tx receipt = if_present receipt.contract_address

unfoldable pub contract_addresses : EvmTx → EvmReceipt → List Str
unfolding evm_mode main_contract add_log_addresses
contract_addresses tx receipt =
    add_log_addresses (main_contract (evm_mode tx receipt) tx receipt) receipt.logs

-- The loop over the answers: the answer at an index is the one to the address at that index.
unfoldable pub contract_map : ContractMap → List Str → List (Answer Erc20ContractInfo) → ContractMap
unfolding set
contract_map m [] infos = m
contract_map m (a ∷ addresses) [] = m
contract_map m (a ∷ addresses) (info ∷ infos) = contract_map (set m a info) addresses infos

evm_tx_type : Str
evm_tx_type = text "ethermint.evm.v1.MsgEthereumTx"

-- `get(tx, 'msgs[0].protoContent.hash', null)` of an EVM message, where the hash is not empty
unfoldable pub evm_hash : Option Transaction → Option Str
unfolding evm_tx_type
evm_hash none = none
evm_hash (some tx) = elim tx.msgs [
  | none ↦ none
  | some [] ↦ none
  | some (msg ∷ _) ↦
      if msg.type_ === evm_tx_type
      then elim msg.hash [ none ↦ none | some h ↦ if h === [] then none else some h ]
      else none
]

-- What is made of `await getResponseResult(…, false)`: an array is gone through, an error is passed
-- over, any other object has no `length`, and `undefined.error` throws.
unfoldable pub contracts_from : List Str → Reply (Response Erc20ContractInfo) → Attempt ContractMap
unfolding contract_map get_response_result
contracts_from addresses (lost is_abort) = fails is_abort
contracts_from addresses (replied response) = elim (get_response_result is_object response false) [
  | answers infos ↦ got (contract_map [] addresses infos)
  | failed e ↦ got []
  | returned none ↦ fails false
  | returned (some info) ↦ got []
  | throws errors ↦ fails false
]

-- `evm_getErc20ContractInfo` for a batch of addresses
module _ (contracts_of : List Str → Reply (Response Erc20ContractInfo)) where
  -- The contracts of a transaction that succeeded and deals with any.
  unfoldable pub with_contracts : Transaction → List Str → Attempt Transaction
  unfolding contracts_from
  with_contracts tx [] = got tx
  with_contracts tx (a ∷ addresses) =
      if tx.success
      then (do
        contracts ← contracts_from (a ∷ addresses) (contracts_of (a ∷ addresses))
        got (record tx { contracts = some contracts }))
      else got tx

  unfoldable pub complete : Transaction → Attempt Transaction
  unfolding with_contracts evm_mode contract_addresses
  complete tx = elim tx.evm_tx [
    | none ↦ got (record tx { mode = cosmos })
    | some evm_tx ↦ elim tx.evm_receipt [
      | none ↦ got (record tx { mode = cosmos })
      | some receipt ↦
          with_contracts (record tx { mode = evm_mode evm_tx receipt })
            (contract_addresses evm_tx receipt)
    ]
  ]

-- `be_getTransactionByHash`
module _ (transaction_of : Str → Reply (RpcResponse Transaction))
    (contracts_of : List Str → Reply (Response Erc20ContractInfo)) where
  -- A Cosmos transaction with an EVM message gives way to the EVM transaction.
  unfoldable pub follow : Option Transaction → Attempt (Option Transaction)
  unfolding evm_hash fetch
  follow first = elim (evm_hash first) [ none ↦ got first | some h ↦ fetch (transaction_of h) ]

  -- The `try` block of the effect, at a hash: the transaction that is shown.
  unfoldable pub use_transaction_detail : Str → Attempt (Option Transaction)
  unfolding fetch follow complete
  use_transaction_detail [] = got none
  use_transaction_detail (c ∷ tx_hash) = do
    first ← fetch (transaction_of (c ∷ tx_hash))
    followed ← follow first
    elim followed [
      | none ↦ got none
      | some tx ↦ do shown ← complete contracts_of tx; got (some shown)
    ]
