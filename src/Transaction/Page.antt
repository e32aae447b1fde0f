-- ===== src/Transaction/Page.antt =====
-- The page of a transaction, web-app/src/components/client/transaction/TransactionDetailPage.tsx.
-- `number` stands for `formatNumber` of a whole number, and `percent` for the rounded quotient of two
-- in per cent.
use dymension_rollapp_block.Common.{
  ℕ, Bool, true, false, Option, none, some, List, [], ◌∷◌, ◌++◌, map, if◌then◌else◌,
}
use dymension_rollapp_block.Common.Text.{Str, text, ◌===◌}
use dymension_rollapp_block.Common.Decimal.{to_string}
use dymension_rollapp_block.Block.Recent.{link_to_block_no}
use dymension_rollapp_block.Transaction.Detail.{Msg, Transaction}
use dymension_rollapp_block.Transaction.Packets.{Packet, eibc}

-- The address and the text of the link of a packet on the hub's explorer.
unfoldable pub packet_link : (escan_url : Str) → Packet → Str × Str
packet_link escan_url p = (
  escan_url ++ text "/eibc/" ++ p.port ++ b'/' ∷ p.channel ++ b'/' ∷ p.sequence,
  text "Packet " ++ p.sequence ++ text " on Dymension",
)

-- `hashes` has the transaction's own hash, and that in the address where it is another.
pub record TransactionItems : Type 0 where
  pub hashes : List Str
  pub status : Str
  pub block : Str × Str
  pub gas : Str
  pub packets : List (Str × Str)

pub data TransactionDetailPage : Type 0 where
  not_found : TransactionDetailPage
  loads : TransactionDetailPage
  shows : TransactionItems → TransactionDetailPage

unfoldable pub get_status_display : Bool → Str
get_status_display true = text "Success"
get_status_display false = text "Fail"

abbrev pub types_of : Option (List Msg) → Option (List Str)
types_of none = none
types_of (some msgs) = some (map (λ (m : Msg). m.type_) msgs)

module _ (number : ℕ → Str) (percent : ℕ → ℕ → Str) (escan_url : Str) where
  unfoldable pub gas_usage : (used limit : ℕ) → Str
  gas_usage used limit =
      number used ++ text " | " ++ number limit ++ text " (" ++ percent used limit ++ text "%)"

  unfoldable pub transaction_items : (pathname tx_hash : Str) → Transaction → TransactionItems
  unfolding ◌===◌ get_status_display link_to_block_no to_string gas_usage eibc packet_link
  transaction_items pathname tx_hash tx = record {
    hashes = if tx_hash === tx.hash then tx.hash ∷ [] else tx.hash ∷ tx_hash ∷ [];
    status = get_status_display tx.success;
    block = (link_to_block_no pathname (to_string tx.height), to_string tx.height);
    gas = gas_usage tx.gas_used tx.gas_limit;
    packets = map (packet_link escan_url) (eibc (types_of tx.msgs) (some tx.events));
  }

  -- While it loads, the items are skeletons.
  unfoldable pub transaction_detail_page :
      (pathname tx_hash : Str) → Option Transaction → (loading : Bool) → TransactionDetailPage
  unfolding transaction_items
  transaction_detail_page pathname tx_hash transaction_detail true = loads
  transaction_detail_page pathname tx_hash none false = not_found
  transaction_detail_page pathname tx_hash (some tx) false =
      shows (transaction_items pathname tx_hash tx)
