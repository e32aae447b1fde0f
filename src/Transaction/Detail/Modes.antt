-- ===== src/Transaction/Detail/Modes.antt =====
-- The kind that a transaction is given, and which transaction is shown for a hash.
use dymension_rollapp_block.Common.{
  ℕ, ◌<◌, ◌≡◌, ◌≢◌, ◌↔◌, ◌⊎◌, inl, inr, refl, sym, length, true, false, Option, none, some, List,
  [], ◌∷◌, arith,
}
use dymension_rollapp_block.Common.Text.{Str, ◌===◌}
use dymension_rollapp_block.Rpc.Service.{RpcResponse, Response}
use dymension_rollapp_block.Hooks.Attempt.{Reply, got, fetch}
use dymension_rollapp_block.Transaction.Detail.{
  Erc20ContractInfo, EvmTx, EvmLog, EvmReceipt, cosmos, evm_general_transfer, evm_contract_deploy,
  Transaction, present, has_input, has_logs, evm_mode, contract_addresses, evm_hash, with_contracts,
  complete, follow, use_transaction_detail,
}

with_contracts-mode :
    (contracts_of : List Str → Reply (Response Erc20ContractInfo)) (tx shown : Transaction)
    (addresses : List Str)
    → with_contracts contracts_of tx addresses ≡ got shown
    → shown.mode ≡ tx.mode
unfolding with_contracts
with_contracts-mode contracts_of tx shown [] e = ground arith
with_contracts-mode contracts_of tx shown (a ∷ addresses) e = ground arith

with_contracts-data :
    (contracts_of : List Str → Reply (Response Erc20ContractInfo)) (tx shown : Transaction)
    (addresses : List Str)
    → with_contracts contracts_of tx addresses ≡ got shown
    → (shown.evm_tx ≡ tx.evm_tx) × (shown.evm_receipt ≡ tx.evm_receipt)
unfolding with_contracts
with_contracts-data contracts_of tx shown [] e = ground arith
with_contracts-data contracts_of tx shown (a ∷ addresses) e = ground arith

no_logs : (logs : List EvmLog) → (has_logs logs ≡ false) ↔ (logs ≡ [])
no_logs [] = ground arith
no_logs (log ∷ logs) = ground arith

evm_mode_iff :
    (tx : EvmTx) (receipt : EvmReceipt)
    → ((evm_mode tx receipt ≡ evm_general_transfer) ↔ (
        (present tx.to ≡ true)
        × (present tx.value ≡ true)
        × (has_input tx.input ≡ false)
        × (receipt.logs ≡ [])))
      × ((evm_mode tx receipt ≡ evm_contract_deploy) ↔ (present tx.to ≡ false))
      × (evm_mode tx receipt ≢ cosmos)
unfolding evm_mode
evm_mode_iff tx receipt =
    let logs = no_logs receipt.logs in (ground arith, ground arith, ground arith)

-- A text that is there and not empty.
abbrev pub IsGiven : Option Str → Type 0
IsGiven o = (c : ℕ) × (s : Str) × (o ≡ some (c ∷ s))

-- No text of 10 characters or more.
abbrev pub IsShort : Option Str → Type 0
IsShort o = (s : Str) → o ≡ some s → length s < 10

present_iff : (o : Option Str) → (present o ≡ true) ↔ IsGiven o
unfolding ◌===◌
present_iff none = ((λ h. absurd (ground arith)), λ (c, s, e). absurd (ground arith))
present_iff (some []) = ((λ h. absurd (ground arith)), λ (c, s, e). absurd (ground arith))
present_iff (some (c ∷ s)) = ((λ h. (c, s, refl)), λ h. refl)

absent_iff : (o : Option Str) → (present o ≡ false) ↔ ((o ≡ none) ⊎ (o ≡ some []))
unfolding ◌===◌
absent_iff none = ((λ h. inl refl), λ h. refl)
absent_iff (some []) = ((λ h. inr refl), λ h. refl)
absent_iff (some (c ∷ s)) = (
  (λ h. absurd (ground arith)),
  λ h. elim h [ inl e ↦ absurd (ground arith) | inr e ↦ absurd (ground arith) ],
)

has_input_iff : (o : Option Str) → (has_input o ≡ false) ↔ IsShort o
has_input_iff none = ((λ h s e. absurd (ground arith)), λ h. refl)
has_input_iff (some input) = (
  (λ h s e. let same : input ≡ s = ground arith in rw (← same) (ground arith)),
  λ h. let short = h input refl in grind arith,
)

pub complete-mode :
    (contracts_of : List Str → Reply (Response Erc20ContractInfo)) (tx shown : Transaction)
    (evm_tx : EvmTx) (receipt : EvmReceipt)
    → tx.evm_tx ≡ some evm_tx
    → tx.evm_receipt ≡ some receipt
    → complete contracts_of tx ≡ got shown
    → evm_mode evm_tx receipt ≡ shown.mode
unfolding complete
complete-mode contracts_of tx shown evm_tx receipt e r h = sym (
    with_contracts-mode contracts_of (record tx { mode = evm_mode evm_tx receipt }) shown
      (contract_addresses evm_tx receipt) (ground arith))

pub complete-data :
    (contracts_of : List Str → Reply (Response Erc20ContractInfo)) (tx shown : Transaction)
    (evm_tx : EvmTx) (receipt : EvmReceipt)
    → tx.evm_tx ≡ some evm_tx
    → tx.evm_receipt ≡ some receipt
    → complete contracts_of tx ≡ got shown
    → (shown.evm_tx ≡ some evm_tx) × (shown.evm_receipt ≡ some receipt)
unfolding complete
complete-data contracts_of tx shown evm_tx receipt e r h =
    let kept =
      with_contracts-data contracts_of (record tx { mode = evm_mode evm_tx receipt }) shown
        (contract_addresses evm_tx receipt) in
    (ground arith, ground arith)

-- A transaction with EVM data and a receipt, where it is shown, is a transfer exactly where its
-- receiver and its value are given and not empty, it has no input of 10 characters or more, and there
-- are no logs; it makes a contract exactly where its receiver is missing or empty; and it is never a
-- Cosmos transaction.
pub mode_iff :
    (contracts_of : List Str → Reply (Response Erc20ContractInfo)) (tx shown : Transaction)
    (evm_tx : EvmTx) (receipt : EvmReceipt)
    → tx.evm_tx ≡ some evm_tx
    → tx.evm_receipt ≡ some receipt
    → complete contracts_of tx ≡ got shown
    → ((shown.mode ≡ evm_general_transfer)
        ↔ (IsGiven evm_tx.to × IsGiven evm_tx.value × IsShort evm_tx.input × (receipt.logs ≡ [])))
      × ((shown.mode ≡ evm_contract_deploy) ↔ ((evm_tx.to ≡ none) ⊎ (evm_tx.to ≡ some [])))
      × (shown.mode ≢ cosmos)
mode_iff contracts_of tx shown evm_tx receipt e r h =
    let (transfer, deploy, never) = evm_mode_iff evm_tx receipt in
    let to = present_iff evm_tx.to in
    let value = present_iff evm_tx.value in
    let input = has_input_iff evm_tx.input in
    let absent = absent_iff evm_tx.to in
    rw (← complete-mode contracts_of tx shown evm_tx receipt e r h) (
      (
        (λ m. let (a, b, c, d) = transfer.0 m in (to.0 a, value.0 b, input.0 c, d)),
        λ (a, b, c, d). transfer.1 (to.1 a, value.1 b, input.1 c, d),
      ),
      ((λ m. absent.0 (deploy.0 m)), λ a. deploy.1 (absent.1 a)),
      never,
    )

-- Where the responses for two hashes are fetched, that of the first has an EVM message that names
-- the second hash, and that of the second has no such message, the effect ends in the same way
-- for both hashes.
pub evm_message_followed :
    (transaction_of : Str → Reply (RpcResponse Transaction))
    (contracts_of : List Str → Reply (Response Erc20ContractInfo)) (a b : Str)
    (first second : Option Transaction)
    → a ≢ []
    → b ≢ []
    → fetch (transaction_of a) ≡ got first
    → fetch (transaction_of b) ≡ got second
    → evm_hash first ≡ some b
    → evm_hash second ≡ none
    → use_transaction_detail transaction_of contracts_of a
      ≡ use_transaction_detail transaction_of contracts_of b
unfolding use_transaction_detail follow
evm_message_followed transaction_of contracts_of [] b first second na nb h k e n = absurd (na refl)
evm_message_followed transaction_of contracts_of (c ∷ a) [] first second na nb h k e n =
    absurd (nb refl)
evm_message_followed transaction_of contracts_of (c ∷ a) (d ∷ b) first second na nb h k e n =
    rw (h, k) (ground arith)
