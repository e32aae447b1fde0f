-- ===== src/Transaction/Data/Filled.antt =====
-- Details, receipts and logs that are not empty.
use dymension_rollapp_block.Common.{◌≡◌, ◌≢◌, refl, Option, List, [], ◌∷◌, ◌++◌, arith}
use dymension_rollapp_block.Common.Text.{Str}
use dymension_rollapp_block.Common.Dict.{Dict}
use dymension_rollapp_block.Store.State.{DenomMetadata}
use dymension_rollapp_block.Address.{Result, ok, throw}
use dymension_rollapp_block.Transaction.Detail.{
  Transaction, EvmTx, EvmLog, EvmReceipt, TxMode, ContractMap, cosmos, evm_general_transfer,
  evm_contract_call, evm_contract_deploy,
}
use dymension_rollapp_block.Transaction.Data.Rows.{Element, Arithmetic, Ensures, >>=-Ensures}
use dymension_rollapp_block.Transaction.Data.Evm.{
  Hooked, Details, elements, details_of_mode, evm_details_contract_call,
  evm_details_general_transfer, evm_details_deploy_contract, transfer_rows, denom_of, as_elements,
}
use dymension_rollapp_block.Transaction.Data.Logs.{receipt_rows, event_logs_from}
use dymension_rollapp_block.Transaction.Data.{evm_type, get_transaction_type}

after : (xs ys : List Element) (y : Element) → xs ++ y ∷ ys ≢ []
after [] ys y = ground arith
after (x ∷ xs) ys y = ground arith

filled : {A : Type 0} (x : A) (xs : List A) → x ∷ xs ≢ []
filled x xs = ground arith

abbrev pub IsNonempty : List Element → Type 0
IsNonempty rows = rows ≢ []

abbrev pub HasElements : Details → Type 0
HasElements details = (es : List Element) × (details ≡ elements es) × (es ≢ [])

as_elements-Filled :
    (rows : Result (List Element))
    → Ensures IsNonempty rows
    → Ensures HasElements (as_elements rows)
as_elements-Filled (throw e) h = tt
as_elements-Filled (ok es) h = (es, refl, h)

module _ (get_address : Str → Option Str) (arithmetic : Arithmetic) where
  deploy-IsNonempty :
      (evm_tx : EvmTx) (receipt : EvmReceipt) (contracts : Option ContractMap)
      → Ensures IsNonempty
          (evm_details_deploy_contract get_address arithmetic evm_tx receipt contracts)
  unfolding evm_details_deploy_contract
  deploy-IsNonempty evm_tx receipt contracts = ground arith

  call-IsNonempty :
      (evm_tx : EvmTx) (receipt : EvmReceipt) (contracts : Option ContractMap)
      → Ensures IsNonempty
          (evm_details_contract_call get_address arithmetic evm_tx receipt contracts)
  unfolding evm_details_contract_call
  call-IsNonempty evm_tx receipt contracts = search (>>=-Ensures, after) depth 12

  rows-IsNonempty :
      (evm_tx : EvmTx) (denom : Option Str) (denoms_metadata : Dict DenomMetadata)
      → Ensures IsNonempty (transfer_rows get_address arithmetic evm_tx denom denoms_metadata)
  unfolding transfer_rows
  rows-IsNonempty evm_tx denom denoms_metadata = search (>>=-Ensures, after []) depth 12

  transfer-IsNonempty :
      (evm_tx : EvmTx) (hooked : Hooked)
      → Ensures IsNonempty (evm_details_general_transfer get_address arithmetic evm_tx hooked)
  unfolding evm_details_general_transfer denom_of
  transfer-IsNonempty evm_tx hooked = grind (arith, rows-IsNonempty)

  pub details_filled :
      (tx : Transaction) (evm_tx : EvmTx) (receipt : EvmReceipt) (hooked : Hooked) (mode : TxMode)
      → tx.mode ≡ mode
      → get_transaction_type tx ≡ evm_type
      → Ensures HasElements (details_of_mode get_address arithmetic tx evm_tx receipt hooked)
  unfolding details_of_mode get_transaction_type
  details_filled tx evm_tx receipt hooked cosmos m t = absurd (ground arith)
  details_filled tx evm_tx receipt hooked evm_general_transfer m t =
      rw m (as_elements-Filled _ (transfer-IsNonempty evm_tx hooked))
  details_filled tx evm_tx receipt hooked evm_contract_call m t =
      rw m (as_elements-Filled _ (call-IsNonempty evm_tx receipt tx.contracts))
  details_filled tx evm_tx receipt hooked evm_contract_deploy m t =
      rw m (as_elements-Filled _ (deploy-IsNonempty evm_tx receipt tx.contracts))

  pub receipt-IsNonempty :
      (number : Str → Str) (receipt : EvmReceipt)
      → Ensures IsNonempty (receipt_rows get_address number arithmetic receipt)
  unfolding receipt_rows
  receipt-IsNonempty number receipt = search (>>=-Ensures, after []) depth 12

  pub logs_nonempty :
      (number : Str → Str) (contracts : Option ContractMap) (log : EvmLog) (logs : List EvmLog)
      → Ensures
          (λ events. events ≢ [])
          (event_logs_from get_address number arithmetic contracts 0 (log ∷ logs))
  unfolding event_logs_from
  logs_nonempty number contracts log logs = search (>>=-Ensures, filled) depth 12
