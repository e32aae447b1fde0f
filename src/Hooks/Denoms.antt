-- ===== src/Hooks/Denoms.antt =====
-- web-app/src/hooks/useDenomsMetadata.ts: the loop over the pages of the metadata of the coins.
pub mod Pages
use dymension_rollapp_block.Common.{
  ℕ, zero, suc, ◌+◌, Bool, true, false, Option, none, some, List, [], length, leb, if◌then◌else◌,
}
use dymension_rollapp_block.Common.Text.{Str, text}
use dymension_rollapp_block.Common.Dict.{Dict, assign}
use dymension_rollapp_block.Store.State.{DenomMetadata, RpcService}
use dymension_rollapp_block.Store.Actions.{Action, update_denoms_metadata}

-- What the call for a page settles to: the page's object, or an exception of the call or of
-- `getResponseResult`.
pub data Page : Type 0 where
  page_of : Dict DenomMetadata → Page
  page_fails : (is_abort : Bool) → Page

pub data Fetched : Type 0 where
  fetched : Dict DenomMetadata → Fetched
  fails : (is_abort : Bool) → Fetched

-- The loop of the effect, from a page on. A page of 20 records or more is followed by another. The
-- loop has no bound of its own: `none` says that the fuel ran out.
unfoldable pub fetch_pages : (ℕ → Page) → ℕ → ℕ → Dict DenomMetadata → Option Fetched
unfolding assign
fetch_pages server zero page_number denoms_metadata = none
fetch_pages server (suc fuel) page_number denoms_metadata = elim (server page_number) [
  | page_fails is_abort ↦ some (fails is_abort)
  | page_of page ↦
      let all = assign denoms_metadata page in
      let rest = fetch_pages server fuel (page_number + 1) all in
      if leb 20 (length page) then rest else some (fetched all)
]

-- What the effect does besides the calls: it may dispatch, throw, or clear `loading`.
pub record Effect : Type 0 where
  pub dispatched : Option Action
  pub thrown : Option Str
  pub loading : Bool

-- The end of the effect: the last lines of `try`, and `catch`.
unfoldable pub finish : (should_throw_error : Bool) → Fetched → Effect
finish should_throw_error (fetched denoms_metadata) = record {
  dispatched = some (update_denoms_metadata denoms_metadata);
  thrown = none;
  loading = false;
}
finish should_throw_error (fails true) = record { dispatched = none; thrown = none; loading = true }
finish true (fails false) = record {
  dispatched = none;
  thrown = some (text "Failed to fetch Denoms Metadata");
  loading = true;
}
finish false (fails false) = record { dispatched = none; thrown = none; loading = false }

-- The effect of `useDenomsMetadata`, run to its end: nothing is fetched where the store has the
-- metadata; without a service the exception is one of the `try` block.
unfoldable pub use_denoms_metadata :
    (should_throw_error has_gotten_denoms_metadata : Bool)
    → Option RpcService
    → (ℕ → Page)
    → ℕ
    → Option Effect
unfolding fetch_pages finish
use_denoms_metadata should_throw_error true rpc_service server fuel =
    some (record { dispatched = none; thrown = none; loading = false })
use_denoms_metadata should_throw_error false none server fuel =
    some (finish should_throw_error (fails false))
use_denoms_metadata should_throw_error false (some _) server fuel =
    elim (fetch_pages server fuel 1 []) [
      | none ↦ none
      | some end ↦ some (finish should_throw_error end)
    ]
