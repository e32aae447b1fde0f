-- ===== src/Tests/Fetches.antt =====
-- Calls, responses and histories of hooks.
use dymension_rollapp_block.Common.{
  ℕ, ◌+◌, ◌≡◌, ◌≢◌, ◌⊎◌, refl, Bool, true, false, not, ◌==◌, none, some, List, [], ◌∷◌, length,
  get_elem?, arith,
}
use dymension_rollapp_block.Common.Text.{text}
use dymension_rollapp_block.Common.Dict.{assign}
use dymension_rollapp_block.Rpc.{
  RpcCallParam, RpcCallParamFull, call_rpc, get_block_by_number_param,
}
use dymension_rollapp_block.Rpc.Service.{
  RpcError, RpcResponse, Response, Answer, value, returned, answer, get_response_result,
}
use dymension_rollapp_block.Rpc.Batch.{map?, batch_answers}
use dymension_rollapp_block.Store.State.{DenomMetadata, RpcService}
use dymension_rollapp_block.Store.Actions.{update_denoms_metadata}
use dymension_rollapp_block.Hooks.{Event, runs, settles, responded, initial_hook, play}
use dymension_rollapp_block.Hooks.Queries.{use_block_detail}
use dymension_rollapp_block.Hooks.Fresh.{last_run, shown_is_fresh}
use dymension_rollapp_block.Hooks.Denoms.{Page, page_of, use_denoms_metadata}
use dymension_rollapp_block.Hooks.Denoms.Pages.{concat, denoms_metadata_complete}

abbrev nonzero : ℕ → Bool
nonzero n = not (n == 0)

abbrev refused : RpcError
refused = record { code = 32; message = text "refused" }

abbrev responses : List (RpcResponse ℕ)
responses =
    record { id = 1; result = some 7; error = none }
    ∷ record { id = 2; result = none; error = some refused }
    ∷ []

-- Answers a call with its id.
abbrev echo : RpcCallParamFull → RpcResponse ℕ
echo full = record { id = full.id; result = some full.id; error = none }

abbrev blocks : List RpcCallParam
blocks = get_block_by_number_param 5 ∷ get_block_by_number_param 4 ∷ []

abbrev received : List (Answer ℕ)
received = value 1 ∷ value 2 ∷ []

batch_answers_example :
    (length received ≡ length blocks)
    × (get_elem? received 1
        ≡ map?
            (λ param. answer nonzero (echo (record { param = param; id = 1 + 1 })))
            (get_elem? blocks 1))
unfolding call_rpc get_response_result
batch_answers_example =
    batch_answers nonzero echo blocks
      (record { param = get_block_by_number_param 5; id = 1 }
        ∷ record { param = get_block_by_number_param 4; id = 2 }
        ∷ [])
      true received 1 refl refl

abbrev service : RpcService
service = record { rpc_url = text "u" }

-- The dependencies change while the first call is awaited; then the second call settles.
abbrev history : List (Event ℕ ℕ)
history =
    runs (some service) 4
    ∷ runs (some service) 5
    ∷ settles (responded (Response.single (record { id = 1; result = some 50; error = none })))
    ∷ []

shown_is_fresh_example :
    ((play nonzero use_block_detail initial_hook history).loading ≡ true)
    ⊎ (((play nonzero use_block_detail initial_hook history).thrown ≢ none)
        ⊎ (last_run none history ≡ some (5, service)))
unfolding play use_block_detail get_response_result
shown_is_fresh_example =
    shown_is_fresh nonzero use_block_detail history 5 service (returned (some 50)) refl

abbrev coin : DenomMetadata
coin = record {
  denom_units = (text "dym", 18) ∷ [];
  base = text "adym";
  name = text "Dym";
  symbol = text "DYM";
  highest_exponent = 18;
}

abbrev one_page : ℕ → Page
one_page n = page_of ((text "adym", coin) ∷ [])

denoms_metadata_complete_example :
    use_denoms_metadata true false (some service) one_page 1
    ≡ some (record {
      dispatched = some (update_denoms_metadata (assign [] (concat [] ((text "adym", coin) ∷ []))));
      thrown = none;
      loading = false;
    })
denoms_metadata_complete_example =
    denoms_metadata_complete true service one_page [] ((text "adym", coin) ∷ []) (refl, omega arith)
