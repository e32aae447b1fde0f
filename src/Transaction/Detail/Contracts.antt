-- ===== src/Transaction/Detail/Contracts.antt =====
-- The contracts of a transaction, and the information that is kept for each.
use dymension_rollapp_block.Common.{
  ℕ, zero, suc, ◌≡◌, ◌≢◌, inl, inr, refl, sym, ap, ◌∙◌, true, false, Option, none, some, List, [],
  ◌∷◌, ◌++◌, map, length, get_elem?, any, All, All-append, length-map, Member, here, there,
  HasDistinct, index_of, arith, Bool-cases,
}
use dymension_rollapp_block.Common.Text.{Str, ◌===◌, eq_of_===, ===_self, ===_iff}
use dymension_rollapp_block.Common.Dict.{get, set, get-set}
use dymension_rollapp_block.Rpc.Service.{RpcResponse, Response, Answer, answer, get_response_result}
use dymension_rollapp_block.Rpc.Batch.{map?}
use dymension_rollapp_block.Hooks.Attempt.{Reply, replied, Attempt, got, ◌>>=◌, is_object}
use dymension_rollapp_block.Transaction.Detail.{
  Erc20ContractInfo, EvmTx, EvmLog, EvmReceipt, TxMode, cosmos, evm_general_transfer,
  evm_contract_call, evm_contract_deploy, ContractMap, Transaction, evm_mode, add_address,
  add_log_addresses, main_contract, contract_addresses, contract_map, contracts_from,
  with_contracts, complete, if_present,
}

abbrev self : Str → Str
self a = a

not_any :
    (a : Str) (addresses : List Str)
    → any (λ b. b === a) addresses ≡ false
    → All (λ b. b ≢ a) addresses
not_any a [] h = tt
not_any a (b ∷ addresses) h = (λ e. ground (arith, ===_iff b a), not_any a addresses (ground arith))

any_member :
    (a : Str) (addresses : List Str) → any (λ b. b === a) addresses ≡ true → Member a addresses
any_member a [] h = ground arith
any_member a (b ∷ addresses) h = elim (Bool-cases (b === a)) [
  | inl same ↦ rw (eq_of_=== b a same) here
  | inr other ↦ there (any_member a addresses (ground arith))
]

distinct_snoc :
    (a : Str) (addresses : List Str)
    → HasDistinct self addresses
    → All (λ b. b ≢ a) addresses
    → HasDistinct self (addresses ++ a ∷ [])
distinct_snoc a [] d h = (tt, tt)
distinct_snoc a (b ∷ addresses) (n, d) (ne, h) = (
  All-append (λ y. y ≢ b) addresses (a ∷ []) n (λ e. ne (sym e), tt),
  distinct_snoc a addresses d h,
)

add_address-HasDistinct :
    (a : Str) (addresses : List Str)
    → HasDistinct self addresses
    → HasDistinct self (add_address addresses a)
unfolding add_address
add_address-HasDistinct a addresses d = elim (Bool-cases (any (λ b. b === a) addresses)) [
  | inl is ↦ rw is d
  | inr isnt ↦ rw isnt (distinct_snoc a addresses d (not_any a addresses isnt))
]

member_snoc : (a : Str) (addresses : List Str) → Member a (addresses ++ a ∷ [])
member_snoc a [] = here
member_snoc a (b ∷ addresses) = there (member_snoc a addresses)

member_append : (b : Str) (xs ys : List Str) → Member b xs → Member b (xs ++ ys)
member_append b xs ys here = here
member_append b xs ys (there m) = there (member_append b _ ys m)

added : (a : Str) (addresses : List Str) → Member a (add_address addresses a)
unfolding add_address
added a addresses = elim (Bool-cases (any (λ b. b === a) addresses)) [
  | inl is ↦ rw is (any_member a addresses is)
  | inr isnt ↦ rw isnt (member_snoc a addresses)
]

still : (a b : Str) (addresses : List Str) → Member b addresses → Member b (add_address addresses a)
unfolding add_address
still a b addresses m = elim (Bool-cases (any (λ b. b === a) addresses)) [
  | inl is ↦ rw is m
  | inr isnt ↦ rw isnt (member_append b addresses (a ∷ []) m)
]

log_addresses-HasDistinct :
    (logs : List EvmLog) (addresses : List Str)
    → HasDistinct self addresses
    → HasDistinct self (add_log_addresses addresses logs)
unfolding add_log_addresses
log_addresses-HasDistinct [] addresses d = d
log_addresses-HasDistinct (log ∷ logs) addresses d =
    log_addresses-HasDistinct logs (add_address addresses log.address)
      (add_address-HasDistinct log.address addresses d)

kept :
    (b : Str) (logs : List EvmLog) (addresses : List Str)
    → Member b addresses
    → Member b (add_log_addresses addresses logs)
unfolding add_log_addresses
kept b [] addresses m = m
kept b (log ∷ logs) addresses m =
    kept b logs (add_address addresses log.address) (still log.address b addresses m)

log_added :
    (log : EvmLog) (logs : List EvmLog) (addresses : List Str)
    → Member log logs
    → Member log.address (add_log_addresses addresses logs)
unfolding add_log_addresses
log_added log logs addresses (here {xs = ls}) =
    kept log.address ls (add_address addresses log.address) (added log.address addresses)
log_added log logs addresses (there {y = other} {xs = ls} m) =
    log_added log ls (add_address addresses other.address) m

if_present-HasDistinct : (s : Option Str) → HasDistinct self (if_present s)
if_present-HasDistinct none = tt
if_present-HasDistinct (some []) = tt
if_present-HasDistinct (some (c ∷ s)) = (tt, tt)

main_contract-HasDistinct :
    (mode : TxMode) (tx : EvmTx) (receipt : EvmReceipt)
    → HasDistinct self (main_contract mode tx receipt)
unfolding main_contract
main_contract-HasDistinct cosmos tx receipt = tt
main_contract-HasDistinct evm_general_transfer tx receipt = tt
main_contract-HasDistinct evm_contract_call tx receipt = if_present-HasDistinct tx.to
main_contract-HasDistinct evm_contract_deploy tx receipt =
    if_present-HasDistinct receipt.contract_address

contract_addresses-HasDistinct :
    (tx : EvmTx) (receipt : EvmReceipt) → HasDistinct self (contract_addresses tx receipt)
unfolding contract_addresses
contract_addresses-HasDistinct tx receipt =
    log_addresses-HasDistinct receipt.logs _
      (main_contract-HasDistinct (evm_mode tx receipt) tx receipt)

log_asked :
    (log : EvmLog) (tx : EvmTx) (receipt : EvmReceipt)
    → Member log receipt.logs
    → Member log.address (contract_addresses tx receipt)
unfolding contract_addresses
log_asked log tx receipt m =
    log_added log receipt.logs (main_contract (evm_mode tx receipt) tx receipt) m

map_keeps_other :
    (a : Str) (m : ContractMap) (addresses : List Str) (infos : List (Answer Erc20ContractInfo))
    → All (λ b. b ≢ a) addresses
    → get (contract_map m addresses infos) a ≡ get m a
unfolding contract_map
map_keeps_other a m [] infos h = refl
map_keeps_other a m (b ∷ addresses) [] h = refl
map_keeps_other a m (b ∷ addresses) (info ∷ infos) (ne, h) =
    map_keeps_other a (set m b info) addresses infos h
    ∙ ground (arith, get-set m b a info, ===_iff b a)

map_at :
    (a : Str) (j : ℕ) (m : ContractMap) (addresses : List Str)
    (infos : List (Answer Erc20ContractInfo))
    → HasDistinct self addresses
    → length infos ≡ length addresses
    → get_elem? addresses j ≡ some a
    → get (contract_map m addresses infos) a ≡ get_elem? infos j
unfolding contract_map
map_at a j m [] infos d l e = absurd (ground arith)
map_at a j m (b ∷ addresses) [] d l e = absurd (omega arith)
map_at a zero m (b ∷ addresses) (info ∷ infos) (n, d) l e =
    let same : b ≡ a = ground arith in
    rw (← same) (map_keeps_other b (set m b info) addresses infos n ∙ rw (get-set, ===_self) refl)
map_at a (suc j) m (b ∷ addresses) (info ∷ infos) (n, d) l e =
    map_at a j (set m b info) addresses infos d (omega arith) e

get_elem?-map? :
    {A B : Type 0} (f : A → B) (xs : List A) (j : ℕ)
    → get_elem? (map f xs) j ≡ map? f (get_elem? xs j)
get_elem?-map? f [] j = refl
get_elem?-map? f (x ∷ xs) zero = refl
get_elem?-map? f (x ∷ xs) (suc j) = get_elem?-map? f xs j

from_batch :
    (addresses : List Str) (rs : List (RpcResponse Erc20ContractInfo))
    → contracts_from addresses (replied (Response.batch rs))
      ≡ got (contract_map [] addresses (map (answer is_object) rs))
unfolding contracts_from get_response_result
from_batch addresses rs = ground arith

abbrev with_map : Transaction → ContractMap → Attempt Transaction
with_map tx contracts = got (record tx { contracts = some contracts })

succeeded :
    (contracts_of : List Str → Reply (Response Erc20ContractInfo)) (a : Str) (addresses : List Str)
    (tx : Transaction)
    → tx.success ≡ true
    → with_contracts contracts_of tx (a ∷ addresses)
      ≡ (contracts_from (a ∷ addresses) (contracts_of (a ∷ addresses)) >>= with_map tx)
unfolding with_contracts
succeeded contracts_of a addresses tx h = ground arith

-- What a batch of answers makes of a transaction that succeeded.
with_contracts_of :
    (contracts_of : List Str → Reply (Response Erc20ContractInfo)) (a : Str) (addresses : List Str)
    (tx : Transaction) (rs : List (RpcResponse Erc20ContractInfo))
    → Member a addresses
    → tx.success ≡ true
    → contracts_of addresses ≡ replied (Response.batch rs)
    → with_contracts contracts_of tx addresses
      ≡ got (record tx { contracts = some (contract_map [] addresses (map (answer is_object) rs)) })
with_contracts_of contracts_of a [] tx rs m h e = elim m [ ]
with_contracts_of contracts_of a (b ∷ addresses) tx rs m h e =
    succeeded contracts_of b addresses tx h
    ∙ ap (λ r. contracts_from (b ∷ addresses) r >>= with_map tx) e
    ∙ ap (λ m. m >>= with_map tx) (from_batch (b ∷ addresses) rs)

evm_completed :
    (contracts_of : List Str → Reply (Response Erc20ContractInfo)) (tx : Transaction)
    (evm_tx : EvmTx) (receipt : EvmReceipt)
    → tx.evm_tx ≡ some evm_tx
    → tx.evm_receipt ≡ some receipt
    → complete contracts_of tx
      ≡ with_contracts contracts_of
          (record tx { mode = evm_mode evm_tx receipt })
          (contract_addresses evm_tx receipt)
unfolding complete
evm_completed contracts_of tx evm_tx receipt e r = ground arith

-- Where a transaction with EVM data and a receipt succeeded, and the server answers the batch of
-- its contracts one by one, the contracts asked for are all different, the address of every log is
-- one of them, and what is kept for that address is made of the server's response to it.
pub log_contract :
    (contracts_of : List Str → Reply (Response Erc20ContractInfo)) (tx : Transaction)
    (evm_tx : EvmTx) (receipt : EvmReceipt) (log : EvmLog)
    (rs : List (RpcResponse Erc20ContractInfo))
    → tx.evm_tx ≡ some evm_tx
    → tx.evm_receipt ≡ some receipt
    → tx.success ≡ true
    → Member log receipt.logs
    → contracts_of (contract_addresses evm_tx receipt) ≡ replied (Response.batch rs)
    → length rs ≡ length (contract_addresses evm_tx receipt)
    → HasDistinct (λ a. a) (contract_addresses evm_tx receipt)
      × ((j : ℕ) × (contracts : ContractMap) × (get_elem? (contract_addresses evm_tx receipt) j
            ≡ some log.address)
          × (complete contracts_of tx
              ≡ got (record tx { mode = evm_mode evm_tx receipt; contracts = some contracts }))
          × (get contracts log.address ≡ map? (answer is_object) (get_elem? rs j)))
log_contract contracts_of tx evm_tx receipt log rs e r h m sent l =
    let addresses = contract_addresses evm_tx receipt in
    let infos = map (answer is_object) rs in
    let distinct = contract_addresses-HasDistinct evm_tx receipt in
    let asked : Member log.address addresses = log_asked log evm_tx receipt m in
    let (j, at) = index_of log.address addresses asked in
    (
      distinct,
      (
        j,
        contract_map [] addresses infos,
        at,
        evm_completed contracts_of tx evm_tx receipt e r
            ∙ (with_contracts_of contracts_of log.address addresses
                (record tx { mode = evm_mode evm_tx receipt }) rs asked h sent),
        map_at log.address j [] addresses infos distinct (length-map rs (answer is_object) ∙ l) at
            ∙ get_elem?-map? (answer is_object) rs j,
      ),
    )
