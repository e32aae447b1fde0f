-- ===== src/Tests/Stores.antt =====
-- A store with two RollApps, of which one is selected.
use mathlib.Core.List.{Perm}
use dymension_rollapp_block.Common.{
  List, ◌≡◌, refl, true, none, some, [], ◌∷◌, Member, here, there, member_unique, ◌==◌, arith,
  if◌then◌else◌,
}
use dymension_rollapp_block.Common.Text.{text, ◌===◌}
use dymension_rollapp_block.Common.Dict.{set}
use dymension_rollapp_block.Common.Locale.{ascii}
use dymension_rollapp_block.Rollapp.{get_favorite_rollapps}
use dymension_rollapp_block.Store.State.{
  RollappState, default_rollapp_state, Ref, Heap, get_selected_rollapp_info_by_pathname,
  get_rpc_service_from_selected_rollapp_info,
}
use dymension_rollapp_block.Store.Actions.{
  Action, World, populate_chain_data_by_pathname, re_order_rollapps, is_marked,
}
use dymension_rollapp_block.Store.{Store, dispatch, init_rollapp_store}
use dymension_rollapp_block.Store.Coherent.{IsCoherent}
use dymension_rollapp_block.Store.Order.{AreFavoritesFirst}
use dymension_rollapp_block.Store.Favorites.{favorite_marked}
use dymension_rollapp_block.Store.Overlap.{overlapped, overlapped_mixed}
use dymension_rollapp_block.Pathname.{get_rollapp_path_from_pathname}
use dymension_rollapp_block.Store.Provider.{provide, dispatch_all, whole, session-IsCoherent}
use dymension_rollapp_block.Tests.Data.{dym_info, nim_info}

abbrev two : Heap
two r = if r == 0 then dym_info else nim_info

abbrev pub opened : Store
opened = record {
  world = record { heap = two; storage = none };
  state = record {
    rollapp_infos = 0 ∷ 1 ∷ [];
    selected_rollapp_info = some 0;
    rpc_service = some (record { rpc_url = text "u" });
    denoms_metadata = [];
    has_gotten_denoms_metadata = true;
  };
  listeners = 3 ∷ 4 ∷ [];
  heard = [];
}

two_distinct :
    (r q : Ref)
    → Member r (0 ∷ 1 ∷ [])
    → Member q (0 ∷ 1 ∷ [])
    → (two r).chain_id ≡ (two q).chain_id
    → r ≡ q
two_distinct r q m n e = member_unique (λ x. (two x).chain_id) r q (0 ∷ 1 ∷ []) (ground arith) m n e

chosen : (r : Ref) → opened.state.selected_rollapp_info ≡ some r → 0 ≡ r
chosen r e = ground arith

opened-IsCoherent : IsCoherent opened.world.heap opened.state
unfolding get_rpc_service_from_selected_rollapp_info
opened-IsCoherent = record {
  distinct = two_distinct;
  listed = λ r e. rw (← chosen r e) here;
  served = refl;
}

favorite_marked_example :
    let favorites = set (get_favorite_rollapps opened.world.storage) (text "nim_2-1") true in
    let after = dispatch ascii opened (re_order_rollapps (some (text "nim_2-1", true))) in
    (after.world.storage ≡ some favorites)
    × ((after.world.heap 1).is_favorite ≡ is_marked favorites (opened.world.heap 1).chain_id)
    × ((after.world.heap 1).chain_info ≡ (opened.world.heap 1).chain_info)
    × ((after.world.heap 1).path ≡ (opened.world.heap 1).path)
    × Perm after.state.rollapp_infos opened.state.rollapp_infos
    × AreFavoritesFirst ascii after.world.heap after.state.rollapp_infos
favorite_marked_example = favorite_marked ascii opened (text "nim_2-1") true 1 (there here)

overlapped_mixed_example :
    ((overlapped ascii opened
        (text "/nim")
        ((opened.world.heap 0).chain_id, true)).state.selected_rollapp_info
      ≡ some 0)
    × ((overlapped ascii opened
          (text "/nim")
          ((opened.world.heap 0).chain_id, true)).state.rpc_service
        ≡ get_rpc_service_from_selected_rollapp_info opened.world.heap (
            get_selected_rollapp_info_by_pathname opened.world.heap opened.state.rollapp_infos
              (text "/nim")))
overlapped_mixed_example =
    overlapped_mixed ascii opened (text "/nim") true 0 opened-IsCoherent refl (ground arith)

abbrev first : World
first = record { heap = two; storage = none }

abbrev nim_selected : RollappState
nim_selected = record default_rollapp_state {
  rollapp_infos = 0 ∷ 1 ∷ [];
  selected_rollapp_info = some 1;
  rpc_service = some (record { rpc_url = text "v" });
}

abbrev provided : Store
provided = dispatch ascii (init_rollapp_store first (whole nim_selected)) (re_order_rollapps none)

abbrev session : List Action
session =
    re_order_rollapps (some (text "nim_2-1", true))
    ∷ populate_chain_data_by_pathname (text "/dym-hub")
    ∷ []

session-IsCoherent_example :
    IsCoherent
      (dispatch_all ascii provided session).world.heap
      (dispatch_all ascii provided session).state
unfolding provide get_rollapp_path_from_pathname ◌===◌
session-IsCoherent_example =
    session-IsCoherent ascii first (0 ∷ 1 ∷ []) (text "/nim/blocks") provided session two_distinct
      refl
