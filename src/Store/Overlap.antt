-- ===== src/Store/Overlap.antt =====
-- Two dispatches of one moment. `dispatch` awaits its action, so the second action runs on the
-- state before the first patch is merged.
use dymension_rollapp_block.Common.{◌≡◌, ◌≢◌, refl, false, Bool, some, arith}
use dymension_rollapp_block.Common.Text.{Str, ===_iff}
use dymension_rollapp_block.Common.Locale.{Locale}
use dymension_rollapp_block.Rollapp.{get_favorite_rollapps}
use dymension_rollapp_block.Common.Dict.{set}
use dymension_rollapp_block.Store.State.{
  Ref, merge, get_selected_rollapp_info_by_pathname, get_rpc_service_from_selected_rollapp_info,
}
use dymension_rollapp_block.Store.Actions.{
  populate_chain_data_by_pathname, re_order_rollapps, act, re_order, populate, is_selected_path,
  is_selected_chain, mark_favorites,
}
use dymension_rollapp_block.Store.Coherent.{IsCoherent, selected_found, marked_chain_id}
use dymension_rollapp_block.Store.{Store, begin, commit}

-- Both actions begin before either patch is merged; the patches are merged in the same order.
abbrev pub overlapped : Locale → Store → Str → Str × Bool → Store
overlapped locale store path favorite =
    let (first, patch) = begin locale store (populate_chain_data_by_pathname path) in
    let (second, patch') = begin locale first (re_order_rollapps (some favorite)) in
    commit (commit second patch) patch'

is_selected_path_other :
    (locale : Locale) (store : Store) (path : Str) (r : Ref)
    → path ≢ (store.world.heap r).path
    → is_selected_path store.world.heap (some r) path ≡ false
unfolding is_selected_path
is_selected_path_other locale store path r ne =
    ground (arith, ===_iff path (store.world.heap r).path)

-- Where a page of another RollApp is opened in the same moment as the selected RollApp of a
-- coherent store is marked or unmarked as a favorite, the old RollApp stays selected, with the
-- RPC service of the RollApp of the new page.
pub overlapped_mixed :
    (locale : Locale) (store : Store) (path : Str) (b : Bool) (r : Ref)
    → IsCoherent store.world.heap store.state
    → store.state.selected_rollapp_info ≡ some r
    → path ≢ (store.world.heap r).path
    → ((overlapped locale store path ((store.world.heap r).chain_id, b)).state.selected_rollapp_info
        ≡ some r)
      × ((overlapped locale store path ((store.world.heap r).chain_id, b)).state.rpc_service
          ≡ get_rpc_service_from_selected_rollapp_info store.world.heap (
              get_selected_rollapp_info_by_pathname store.world.heap store.state.rollapp_infos
                path))
unfolding begin commit merge act populate is_selected_chain re_order
overlapped_mixed locale store path b r h e ne =
    let chain_id = (store.world.heap r).chain_id in
    let favorites = set (get_favorite_rollapps store.world.storage) chain_id b in
    let rs = store.state.rollapp_infos in
    let same = marked_chain_id favorites rs store.world.heap r in
    let tested =
      (===_iff (mark_favorites favorites rs store.world.heap r).chain_id chain_id).1 same in
    rw (e, is_selected_path_other locale store path r ne, tested)
      (selected_found locale favorites store.world.heap store.state h r chain_id e same, refl)
