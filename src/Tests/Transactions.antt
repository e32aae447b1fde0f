-- ===== src/Tests/Transactions.antt =====
-- A transaction of the EVM, its contract and its log.
use dymension_rollapp_block.Common.{
  ℕ, ◌-◌, ◌/◌, ◌≤◌, ◌≡◌, ◌⊎◌, ◌≢◌, ◌↔◌, refl, true, Option, none, some, List, [], ◌∷◌, ◌++◌,
  get_elem?, here, HasDistinct, arith,
}
use dymension_rollapp_block.Common.Text.{Str, text, ◌===◌}
use dymension_rollapp_block.Common.Decimal.{to_string}
use dymension_rollapp_block.Common.Dict.{get}
use dymension_rollapp_block.Rpc.Service.{RpcResponse, Response, value, answer}
use dymension_rollapp_block.Rpc.Batch.{map?}
use dymension_rollapp_block.Hooks.Attempt.{Reply, replied, got, is_object}
use dymension_rollapp_block.Hooks.Recent.Fallback.{IsOn, block_page_iff}
use dymension_rollapp_block.Health.{IndexingFallbehindChain}
use dymension_rollapp_block.Transaction.Detail.{
  Erc20ContractInfo, EvmTx, EvmLog, EvmReceipt, TxMode, cosmos, evm_general_transfer,
  evm_contract_deploy, ContractMap, Transaction, evm_mode, contract_addresses, complete,
}
use dymension_rollapp_block.Transaction.Detail.Modes.{IsGiven, IsShort, mode_iff}
use dymension_rollapp_block.Transaction.Detail.Contracts.{log_contract}
use dymension_rollapp_block.Transaction.Logs.{
  erc20_transfer, translated, zero_padding, decimals_of, translate_evm_log_if_possible,
}
use dymension_rollapp_block.Transaction.Logs.Amounts.{
  topic_of, action_of, shown_amount, log_translated,
}

abbrev token : Erc20ContractInfo
token = record { name = text "Token"; symbol = text "TKN"; decimals = some 6 }

abbrev token_log : EvmLog
token_log = record { address = text "0xc"; topics = []; data_ = []; log_index = text "0x0" }

abbrev pub call : EvmTx
call = record {
  from = text "0xa";
  gas_price = text "0x7";
  to = some (text "0xc");
  value = some (text "0x0");
  input = none;
}

abbrev pub receipt : EvmReceipt
receipt = record {
  from = text "0xa";
  to = some (text "0xc");
  status = text "0x1";
  cumulative_gas_used = text "0x5208";
  effective_gas_price = text "0x7";
  gas_used = text "0x5208";
  type_ = text "0x2";
  contract_address = none;
  logs = token_log ∷ [];
}

abbrev pub evm : Transaction
evm = record {
  hash = text "0xe";
  height = 7;
  gas_limit = 30000;
  gas_used = 21000;
  msgs = none;
  events = [];
  evm_tx = some call;
  evm_receipt = some receipt;
  mode = cosmos;
  contracts = none;
  success = true;
}

abbrev responses : List (RpcResponse Erc20ContractInfo)
responses = record { id = 1; result = some token; error = none } ∷ []

abbrev pub contracts_of : List Str → Reply (Response Erc20ContractInfo)
contracts_of addresses = replied (Response.batch responses)

abbrev pub shown : Transaction
shown = record evm {
  mode = TxMode.evm_contract_call;
  contracts = some ((text "0xc", value token) ∷ []);
}

mode_iff_example :
    ((shown.mode ≡ evm_general_transfer)
      ↔ (IsGiven call.to × IsGiven call.value × IsShort call.input × (receipt.logs ≡ [])))
    × ((shown.mode ≡ evm_contract_deploy) ↔ ((call.to ≡ none) ⊎ (call.to ≡ some [])))
    × (shown.mode ≢ cosmos)
unfolding complete ◌===◌
mode_iff_example = mode_iff contracts_of evm shown call receipt refl refl refl

log_contract_example :
    HasDistinct (λ a. a) (contract_addresses call receipt)
    × ((j : ℕ) × (contracts : ContractMap) × (get_elem? (contract_addresses call receipt) j
          ≡ some token_log.address)
        × (complete contracts_of evm
            ≡ got (record evm { mode = evm_mode call receipt; contracts = some contracts }))
        × (get contracts token_log.address ≡ map? (answer is_object) (get_elem? responses j)))
unfolding contract_addresses ◌===◌
log_contract_example =
    log_contract contracts_of evm call receipt token_log responses refl refl refl here refl refl

abbrev digits : Str
digits = text "00000000000000000000000000000000000000000000000000000000000f4240"

-- A division that writes the decimals behind the amount.
abbrev divide : Str → ℕ → Str
divide amount decimals = amount ++ text "e-" ++ to_string decimals

abbrev known : Option ContractMap
known = some ((text "0xc", value token) ∷ [])

log_translated_example :
    translate_evm_log_if_possible divide
      (topic_of erc20_transfer ∷ (zero_padding ++ text "aa") ∷ (zero_padding ++ text "bb") ∷ [])
      (text "0x" ++ digits)
      (text "0xc")
      known
    ≡ translated (record {
      type_ = erc20_transfer;
      action = action_of erc20_transfer;
      from = text "0x" ++ text "aa";
      to = text "0x" ++ text "bb";
      amount = (shown_amount divide digits (decimals_of known (text "0xc"))).0;
      is_raw_amount = (shown_amount divide digits (decimals_of known (text "0xc"))).1;
    })
log_translated_example =
    log_translated divide erc20_transfer (text "aa") (text "bb") digits (text "0xc") known refl refl

block_page_iff_example : IsOn 103 25 4 3 ↔ ((1 ≤ 3) × (3 ≤ 103) × (◌≡◌ {A = ℕ} 4 ((103 - 3) / 25)))
block_page_iff_example = block_page_iff 103 25 4 3 (omega arith)

abbrev behind : List IndexingFallbehindChain
behind = record { epoch_diff = 4000 } ∷ record { epoch_diff = 9000 } ∷ []
