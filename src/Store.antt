-- ===== src/Store.antt =====
-- web-app/src/hooks/useStore.ts and `initRollappStore` of web-app/src/stores/rollappStore.ts: the
-- store that the pages share, and its listeners. RollApp objects are shared and mutated, so they
-- stand on a heap; the state holds their references.
pub mod State
pub mod Actions
pub mod Marks
pub mod Order
pub mod Coherent
pub mod Dispatch
pub mod Provider
pub mod Favorites
pub mod Overlap
use dymension_rollapp_block.Common.{ℕ, not, List, [], ◌∷◌, ◌++◌, map, ◌==◌, filter}
use dymension_rollapp_block.Common.Locale.{Locale}
use dymension_rollapp_block.Store.State.{RollappState, Patch, merge, default_rollapp_state}
use dymension_rollapp_block.Store.Actions.{Action, World, act}

-- `heard` records the calls of the listeners.

pub record Store : Type 0 where
  pub world : World
  pub state : RollappState
  pub listeners : List ℕ
  pub heard : List (ℕ × RollappState)

unfoldable pub listen : Store → ℕ → Store
listen store listener = record store { listeners = store.listeners ++ listener ∷ [] }

-- The cleanup of the effect: `listeners.filter(li => li !== setState)`.
unfoldable pub unlisten : Store → ℕ → Store
unlisten store listener = record store {
  listeners = filter (λ li. not (li == listener)) store.listeners;
}

-- The rest of a dispatch: the patch is merged into the state of this moment.
unfoldable pub commit : Store → Patch → Store
unfolding merge
commit store patch =
    let state = merge store.state patch in
    record store {
      state = state;
      heard = store.heard ++ map (λ listener. (listener, state)) store.listeners;
    }

module _ (locale : Locale) where
  -- A dispatch up to its `await`: the action runs on the state of that moment.
  unfoldable pub begin : Store → Action → Store × Patch
  unfolding act
  begin store action =
      let (world, patch) = act locale store.world store.state action in
      (record store { world = world }, patch)

  -- A dispatch that nothing interleaves.
  unfoldable pub dispatch : Store → Action → Store
  unfolding begin commit
  dispatch store action = let (begun, patch) = begin store action in commit begun patch

-- `initRollappStore(initialState)`
unfoldable pub init_rollapp_store : World → Patch → Store
unfolding merge
init_rollapp_store world initial_state = record {
  world = world;
  state = merge default_rollapp_state initial_state;
  listeners = [];
  heard = [];
}
