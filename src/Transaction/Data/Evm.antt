-- ===== src/Transaction/Data/Evm.antt =====
-- The details of an EVM transaction,
-- web-app/src/components/client/transaction/TransactionData/_EvmDetails.tsx. What the page shows
-- while a hook loads is a skeleton.
use dymension_rollapp_block.Common.{
  Bool, true, false, ◌||◌, Option, none, some, List, [], ◌∷◌, ◌++◌, take, if◌then◌else◌,
}
use dymension_rollapp_block.Common.Text.{Str, text, ◌===◌}
use dymension_rollapp_block.Common.Dict.{Dict, get}
use dymension_rollapp_block.Address.{Result, ok, throw, lift, ◌>>=◌}
use dymension_rollapp_block.Store.State.{DenomMetadata}
use dymension_rollapp_block.Transaction.Detail.{
  EvmTx, EvmLog, EvmReceipt, ContractMap, Transaction, cosmos, evm_general_transfer,
  evm_contract_call, evm_contract_deploy,
}
use dymension_rollapp_block.Transaction.Logs.{
  TranslatedLog, translated, untranslated, throws, erc20_transfer, erc20_approval,
  translate_evm_log_if_possible,
}
use dymension_rollapp_block.Transaction.Data.Rows.{
  Piece, words, address_link, text_field, Element, row_item, line_breaks, name_of, symbol_of,
  required, type_error, Arithmetic, from_hex_string_to_ethereum_value,
  from_hex_string_to_ethereum_gas_price_value, format_number,
}

-- A hook's data and whether it loads: `chain` has the field `denoms` of the chain's information.
pub record Hooked : Type 0 where
  pub chain_info_loading : Bool
  pub chain : Option (Dict Str)
  pub denoms_metadata_loading : Bool
  pub denoms_metadata : Dict DenomMetadata

-- The component's return value: one of its texts, or elements.
pub data Details : Type 0 where
  message : Str → Details
  elements : List Element → Details

-- `input && …`
abbrev pub bytecode_rows : Option Str → List Element
bytecode_rows none = []
bytecode_rows (some []) = []
bytecode_rows (some (c ∷ s)) = row_item (text "Deployment Bytecode") (text_field (c ∷ s) ∷ []) ∷ []

-- `input && input != '0x' ? … : <i>none</i>`
abbrev pub input_pieces : Str → List Piece
input_pieces [] = words (text "none") ∷ []
input_pieces (c ∷ s) =
    if c ∷ s === text "0x" then words (text "none") ∷ [] else text_field (c ∷ s) ∷ []

abbrev pub raw_mark : Bool → Str
raw_mark true = text "(Raw) "
raw_mark false = []

-- Three line breaks behind the actions, where there are any.
abbrev pub breaks_after : List Element → List Element
breaks_after [] = []
breaks_after (e ∷ es) = line_breaks ∷ []

-- The `switch` on the denomination: `denom && metadata[denom] ? metadata[denom].symbol : ''`
abbrev pub symbol_or_empty : Option Str → Dict DenomMetadata → Str
symbol_or_empty none denoms_metadata = []
symbol_or_empty (some []) denoms_metadata = []
symbol_or_empty (some (c ∷ s)) denoms_metadata = elim (get denoms_metadata (c ∷ s)) [
  | none ↦ []
  | some m ↦ m.symbol
]

-- `!chainInfoLoading ? chainInfo!.denoms.evm : null`
unfoldable pub denom_of : Hooked → Result (Option Str)
unfolding get
denom_of hooked =
    if hooked.chain_info_loading
    then ok none
    else elim hooked.chain [ none ↦ throw type_error | some denoms ↦ ok (get denoms (text "evm")) ]

-- The component that shows rows.
abbrev pub as_elements : Result (List Element) → Result Details
as_elements (throw e) = throw e
as_elements (ok es) = ok (elements es)

module _ (get_address : Str → Option Str) (arithmetic : Arithmetic) where
  open arithmetic use {divide}

  -- `to && <AddressLink address={getAddress(to)} />`
  unfoldable pub optional_link : Option Str → Result (List Piece)
  optional_link none = ok []
  optional_link (some []) = ok []
  optional_link (some (c ∷ s)) = do
    address ← lift (get_address (c ∷ s))
    ok (address_link address none ∷ [])

  unfoldable pub gas_price_row : Str → Result Element
  unfolding format_number from_hex_string_to_ethereum_gas_price_value
  gas_price_row gas_price = do
    price ← from_hex_string_to_ethereum_gas_price_value arithmetic gas_price
    shown ← format_number arithmetic price
    ok (row_item (text "Gas Price") (words shown ∷ []))

  unfoldable pub deployed_pieces : Option Str → Option ContractMap → Result (List Piece)
  unfolding name_of
  deployed_pieces none contracts = ok (words (text "Missing contract address") ∷ [])
  deployed_pieces (some []) contracts = ok (words (text "Missing contract address") ∷ [])
  deployed_pieces (some (c ∷ s)) contracts = do
    address ← lift (get_address (c ∷ s))
    ok (address_link address (name_of contracts (c ∷ s)) ∷ [])

  unfoldable pub evm_details_deploy_contract :
      EvmTx → EvmReceipt → Option ContractMap → Result (List Element)
  unfolding deployed_pieces gas_price_row
  evm_details_deploy_contract evm_tx receipt contracts = do
    deployer ← lift (get_address evm_tx.from)
    deployed ← deployed_pieces receipt.contract_address contracts
    gas_price ← gas_price_row evm_tx.gas_price
    ok (
        row_item (text "Deployer") (address_link deployer none ∷ [])
          ∷ row_item (text "Deploy New Contract") deployed
          ∷ bytecode_rows evm_tx.input
        ++ gas_price ∷ [])

  -- The values of the rows, behind the hooks.
  unfoldable pub transfer_rows : EvmTx → Option Str → Dict DenomMetadata → Result (List Element)
  unfolding optional_link gas_price_row from_hex_string_to_ethereum_value
  transfer_rows evm_tx denom denoms_metadata = do
    hex ← required evm_tx.value
    amount ← from_hex_string_to_ethereum_value arithmetic hex
    from ← lift (get_address evm_tx.from)
    to ← optional_link evm_tx.to
    gas_price ← gas_price_row evm_tx.gas_price
    ok (
        row_item (text "Transfer")
          (words (amount ++ b' ' ∷ symbol_or_empty denom denoms_metadata) ∷ [])
        ∷ row_item (text "From") (address_link from none ∷ [])
        ∷ row_item (text "To") to
        ∷ gas_price
        ∷ [])

  -- A row whose value is a skeleton has no pieces.
  unfoldable pub evm_details_general_transfer : EvmTx → Hooked → Result (List Element)
  unfolding denom_of transfer_rows
  evm_details_general_transfer evm_tx hooked = do
    denom ← denom_of hooked
    if hooked.chain_info_loading || hooked.denoms_metadata_loading
        then ok (
            row_item (text "Transfer") []
            ∷ row_item (text "From") []
            ∷ row_item (text "To") []
            ∷ row_item (text "Gas Price") []
            ∷ [])
        else transfer_rows evm_tx denom hooked.denoms_metadata

  -- The pieces of an action, of which the two addresses are links under their checksums.
  unfoldable pub action_pieces : TranslatedLog → (symbol from to : Str) → List Piece
  action_pieces log symbol from to = elim log.type_ [
    | erc20_transfer ↦
        words (
          text "Transfer "
          ++ raw_mark log.is_raw_amount
          ++ text " "
          ++ log.amount
          ++ text " "
          ++ symbol
          ++ text " from ")
        ∷ address_link log.from (some from)
        ∷ words (text " to ")
        ∷ address_link log.to (some to)
        ∷ []
    | erc20_approval ↦
        words (
          text "Granted spend up to "
          ++ raw_mark log.is_raw_amount
          ++ text " "
          ++ log.amount
          ++ text " "
          ++ symbol
          ++ text " from ")
        ∷ address_link log.from (some from)
        ∷ words (text ", grant to ")
        ∷ address_link log.to (some to)
        ∷ []
  ]

  -- The element of a log, or none.
  unfoldable pub render_evm_tx_action : EvmLog → Option ContractMap → Result (List Element)
  unfolding translate_evm_log_if_possible symbol_of action_pieces
  render_evm_tx_action log contracts =
      elim (translate_evm_log_if_possible divide log.topics log.data_ log.address contracts) [
        | throws ↦ throw type_error
        | untranslated ↦ ok []
        | translated t ↦ (do
          from ← lift (get_address t.from)
          to ← lift (get_address t.to)
          ok (
              row_item (text "Action") (action_pieces t (symbol_of contracts log.address) from to)
              ∷ []))
      ]

  unfoldable pub render_evm_tx_actions : List EvmLog → Option ContractMap → Result (List Element)
  unfolding render_evm_tx_action
  render_evm_tx_actions [] contracts = ok []
  render_evm_tx_actions (log ∷ logs) contracts = do
    action ← render_evm_tx_action log contracts
    rest ← render_evm_tx_actions logs contracts
    ok (action ++ rest)

  unfoldable pub evm_details_contract_call :
      EvmTx → EvmReceipt → Option ContractMap → Result (List Element)
  unfolding render_evm_tx_actions optional_link gas_price_row from_hex_string_to_ethereum_value
      format_number
  evm_details_contract_call evm_tx receipt contracts = do
    actions ← render_evm_tx_actions receipt.logs contracts
    caller ← lift (get_address evm_tx.from)
    contract ← optional_link evm_tx.to
    input ← required evm_tx.input
    hex ← required evm_tx.value
    value ← from_hex_string_to_ethereum_value arithmetic hex
    tx_value ← format_number arithmetic value
    gas_price ← gas_price_row evm_tx.gas_price
    ok (
        actions
        ++ breaks_after actions
        ++ row_item (text "Caller") (address_link caller none ∷ [])
          ∷ row_item (text "Contract") contract
          ∷ row_item (text "Method") (words (take 10 input) ∷ [])
          ∷ row_item (text "Input") (input_pieces input)
          ∷ row_item (text "Tx Value") (words tx_value ∷ [])
          ∷ gas_price
          ∷ [])

  -- The branches on the mode.
  unfoldable pub details_of_mode : Transaction → EvmTx → EvmReceipt → Hooked → Result Details
  unfolding evm_details_general_transfer evm_details_contract_call evm_details_deploy_contract
  details_of_mode tx evm_tx receipt hooked = elim tx.mode [
    | cosmos ↦ ok (message (text "Unknown EVM Tx mode 0"))
    | evm_general_transfer ↦ as_elements (evm_details_general_transfer evm_tx hooked)
    | evm_contract_call ↦ as_elements (evm_details_contract_call evm_tx receipt tx.contracts)
    | evm_contract_deploy ↦ as_elements (evm_details_deploy_contract evm_tx receipt tx.contracts)
  ]

  unfoldable pub evm_details : Transaction → Hooked → Result Details
  unfolding details_of_mode
  evm_details tx hooked = elim tx.evm_tx [
    | none ↦ ok (message (text "Error: no EVM tx details to show"))
    | some evm_tx ↦ elim tx.evm_receipt [
      | none ↦ ok (message (text "Error: no EVM receipt details"))
      | some receipt ↦ details_of_mode tx evm_tx receipt hooked
    ]
  ]
