-- ===== src/Tests/Data.antt =====
-- Two RollApps, and the addresses that the examples use.
use dymension_rollapp_block.Common.{false, [], ◌∷◌}
use dymension_rollapp_block.Common.Text.{text}
use dymension_rollapp_block.Rollapp.{ChainInfo, RollappInfo}

abbrev pub dym : ChainInfo
dym = record {
  name = text "Dym Hub";
  chain_id = text "dym_1-1";
  be_json_rpc_urls = text "u" ∷ [];
  bech32 = (text "addr", text "dym") ∷ [];
  chain_type = text "evm";
  latest_indexed_block = 9;
  denoms = [];
}

abbrev pub nim : ChainInfo
nim = record {
  name = text "Nim";
  chain_id = text "nim_2-1";
  be_json_rpc_urls = text "v" ∷ [];
  bech32 = (text "addr", text "nim") ∷ [];
  chain_type = text "cosmos";
  latest_indexed_block = 40;
  denoms = [];
}

abbrev pub dym_info : RollappInfo
dym_info = record { chain_info = dym; path = text "/dym-hub"; is_favorite = false }

abbrev pub nim_info : RollappInfo
nim_info = record { chain_info = nim; path = text "/nim"; is_favorite = false }
