-- ===== src/Transaction/Data/Failures.antt =====
-- Where the data of a transaction are not shown, since a component throws.
use dymension_rollapp_block.Common.{
  ℕ, suc, ◌≡◌, ◌≢◌, ◌↔◌, inl, inr, refl, sym, ◌∙◌, true, Option, none, some, List, [], ◌∷◌, All,
  ◌⊎◌, Member, here, there, arith,
}
use dymension_rollapp_block.Common.Text.{Str}
use dymension_rollapp_block.Address.{Result, ok, throw, lift}
use dymension_rollapp_block.Rpc.Service.{Response}
use dymension_rollapp_block.Hooks.Attempt.{Reply, got}
use dymension_rollapp_block.Transaction.Detail.{
  Transaction, Erc20ContractInfo, EvmTx, EvmLog, EvmReceipt, ContractMap, evm_contract_call,
  present, evm_mode, complete,
}
use dymension_rollapp_block.Transaction.Data.Rows.{
  Arithmetic, Element, Ensures, >>=-Ensures, name_of, type_error,
}
use dymension_rollapp_block.Transaction.Data.{
  Page, transaction_data, tab_content, get_transaction_type, evm_type, tab_value_or,
}
use dymension_rollapp_block.Transaction.Detail.Modes.{complete-data, complete-mode}
use dymension_rollapp_block.Transaction.Data.Evm.{
  Hooked, as_elements, evm_details, details_of_mode, evm_details_contract_call,
}
use dymension_rollapp_block.Transaction.Data.Logs.{
  name_or, event_log, event_logs_from, evm_event_logs,
}

abbrev pub HasThrown : {A : Type 0} → Result A → Type 0
HasThrown r = (e : Str) × (r ≡ throw e)

abbrev pub HasReturned : {A : Type 0} → Result A → Type 0
HasReturned {A} r = (a : A) × (r ≡ ok a)

Result-cases : {A : Type 0} (r : Result A) → HasThrown r ⊎ HasReturned r
Result-cases (throw e) = inl (e, refl)
Result-cases (ok a) = inr (a, refl)

module _ (get_address : Str → Option Str) (number : Str → Str) (arithmetic : Arithmetic)
    (contracts : Option ContractMap) where
  no_topic :
      (idx : ℕ) (log : EvmLog)
      → log.topics ≡ []
      → HasThrown (event_log get_address number arithmetic contracts idx log)
  unfolding event_log
  no_topic idx log e =
      elim (Result-cases
        (name_or (name_of contracts log.address) (lift (get_address log.address)))) [
          | inl (x, thrown) ↦ (x, ground arith)
          | inr (contract, returned) ↦ (type_error, ground arith)
        ]

  -- A log has no topic, or is shown.
  abbrev pub IsShown : EvmLog → Type 0
  IsShown log =
      (log.topics ≡ [])
      ⊎ ((idx : ℕ) → HasReturned (event_log get_address number arithmetic contracts idx log))

  some_throws :
      (log : EvmLog) (idx : ℕ) (logs : List EvmLog)
      → Member log logs
      → log.topics ≡ []
      → HasThrown (event_logs_from get_address number arithmetic contracts idx logs)
  unfolding event_logs_from
  some_throws log idx logs here e = let (x, thrown) = no_topic idx log e in (x, rw thrown refl)
  some_throws log idx logs (there {y = y} {xs = xs} m) e =
      elim (Result-cases (event_log get_address number arithmetic contracts idx y)) [
        | inl (x, thrown) ↦ (x, rw thrown refl)
        | inr (a, returned) ↦
            let (x, thrown) = some_throws log (suc idx) xs m e in (x, rw (returned, thrown) refl)
      ]

  throws_some :
      (idx : ℕ) (logs : List EvmLog) (e : Str)
      → All IsShown logs
      → event_logs_from get_address number arithmetic contracts idx logs ≡ throw e
      → (log : EvmLog) × Member log logs × (log.topics ≡ [])
  unfolding event_logs_from
  throws_some idx [] e shown h = absurd (ground arith)
  throws_some idx (log ∷ logs) e (inl none_there, shown) h = (log, here, none_there)
  throws_some idx (log ∷ logs) e (inr f, shown) h =
      let (a, returned) = f idx in
      elim (Result-cases (event_logs_from get_address number arithmetic contracts (suc idx) logs)) [
        | inl (x, thrown) ↦
            let (found, m, no_topics) = throws_some (suc idx) logs x shown thrown in
            (found, there m, no_topics)
        | inr (rest, all_returned) ↦ absurd (ground arith)
      ]

  -- Where each log of a receipt either has no topics or is shown on its own, the tab of the EVM
  -- event logs throws exactly where one of them has no topics.
  pub logs_throw_iff :
      (tx : Transaction) (receipt : EvmReceipt)
      → tx.evm_receipt ≡ some receipt
      → tx.contracts ≡ contracts
      → All IsShown receipt.logs
      → HasThrown (evm_event_logs get_address number arithmetic tx)
        ↔ ((log : EvmLog) × Member log receipt.logs × (log.topics ≡ []))
  unfolding evm_event_logs
  logs_throw_iff tx receipt r same shown =
      rw (r, same)
        (
          (λ (e, thrown). throws_some 0 receipt.logs e shown thrown),
          (λ (log, m, no_topics). some_throws log 0 receipt.logs m no_topics),
        )

-- Nothing is returned.
abbrev Never : {A : Type 0} → A → Type 0
Never a = ⊥

thrown_of : {A : Type 0} (r : Result A) → Ensures Never r → HasThrown r
thrown_of (throw e) h = (e, refl)
thrown_of (ok a) h = absurd h

as_elements-Never : (m : Result (List Element)) → Ensures Never m → Ensures Never (as_elements m)
as_elements-Never (throw e) h = tt
as_elements-Never (ok a) h = h

call_throws :
    (get_address : Str → Option Str) (arithmetic : Arithmetic) (evm_tx : EvmTx)
    (receipt : EvmReceipt) (contracts : Option ContractMap)
    → evm_tx.input ≡ none
    → Ensures Never (evm_details_contract_call get_address arithmetic evm_tx receipt contracts)
unfolding evm_details_contract_call
call_throws get_address arithmetic evm_tx receipt contracts input =
    rw input (search (>>=-Ensures) depth 12)

call_mode :
    (evm_tx : EvmTx) (receipt : EvmReceipt)
    → present evm_tx.to ≡ true
    → receipt.logs ≢ []
    → evm_mode evm_tx receipt ≡ evm_contract_call
unfolding evm_mode
call_mode evm_tx receipt to logs = ground arith

call_type :
    (shown : Transaction) → shown.mode ≡ evm_contract_call → get_transaction_type shown ≡ evm_type
unfolding get_transaction_type
call_type shown mode = rw mode refl

details_throw :
    (get_address : Str → Option Str) (arithmetic : Arithmetic) (hooked : Hooked)
    (shown : Transaction) (evm_tx : EvmTx) (receipt : EvmReceipt)
    → shown.evm_tx ≡ some evm_tx
    → shown.evm_receipt ≡ some receipt
    → shown.mode ≡ evm_contract_call
    → evm_tx.input ≡ none
    → Ensures Never (evm_details get_address arithmetic shown hooked)
unfolding evm_details details_of_mode
details_throw get_address arithmetic hooked shown evm_tx receipt t r mode input =
    rw (t, r, mode)
      (as_elements-Never _
        (call_throws get_address arithmetic evm_tx receipt shown.contracts input))

-- A transaction that is completed, names a receiver, has a log and no input: the tab that is
-- selected first throws, whatever the page takes of the packages and the hooks.
pub input_missing_throws :
    (page : Page) (contracts_of : List Str → Reply (Response Erc20ContractInfo))
    (tx shown : Transaction) (evm_tx : EvmTx) (receipt : EvmReceipt)
    → complete contracts_of tx ≡ got shown
    → tx.evm_tx ≡ some evm_tx
    → tx.evm_receipt ≡ some receipt
    → present evm_tx.to ≡ true
    → receipt.logs ≢ []
    → evm_tx.input ≡ none
    → HasThrown (transaction_data page (some shown) none)
unfolding transaction_data tab_content tab_value_or
input_missing_throws page contracts_of tx shown evm_tx receipt h t r to logs input =
    let (same_tx, same_receipt) = complete-data contracts_of tx shown evm_tx receipt t r h in
    let mode : shown.mode ≡ evm_contract_call =
      sym (complete-mode contracts_of tx shown evm_tx receipt t r h)
      ∙ call_mode evm_tx receipt to logs in
    let (e, thrown) = thrown_of _ (
      details_throw page.get_address page.arithmetic page.hooked shown evm_tx receipt same_tx
        same_receipt mode input) in
    (e, rw (call_type shown mode, thrown) refl)
