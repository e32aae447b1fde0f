-- ===== src/Store/Actions.antt =====
-- The actions of web-app/src/stores/rollappStore.ts. Each returns a patch; the reordering also
-- mutates the objects and the local storage.
use Prim.Native.Nat.{Ordering}
use dymension_rollapp_block.Common.{
  Bool, true, false, not, ◌&&◌, Option, none, some, List, [], ◌∷◌, ◌==◌, find, if◌then◌else◌,
}
use dymension_rollapp_block.Common.Text.{Str, ◌===◌}
use dymension_rollapp_block.Common.Dict.{Dict, get, set}
use dymension_rollapp_block.Common.Locale.{Locale}
use dymension_rollapp_block.Common.Sort.{sort}
use dymension_rollapp_block.Rollapp.{
  RollappInfo, LocalStorage, get_favorite_rollapps, set_favorite_rollapps,
}
use dymension_rollapp_block.Store.State.{
  DenomMetadata, Ref, Heap, RollappState, Patch, empty_patch, given,
  get_selected_rollapp_info_by_pathname, get_rpc_service_from_selected_rollapp_info,
}

pub data Action : Type 0 where
  populate_chain_data_by_pathname : Str → Action
  update_denoms_metadata : Dict DenomMetadata → Action
  re_order_rollapps : Option (Str × Bool) → Action

-- What an action may change besides the state.
pub record World : Type 0 where
  pub heap : Heap
  pub storage : LocalStorage

unfoldable pub populate : Heap → RollappState → Str → Patch
unfolding get_selected_rollapp_info_by_pathname get_rpc_service_from_selected_rollapp_info
populate heap s rollapp_path =
    let selected = get_selected_rollapp_info_by_pathname heap s.rollapp_infos rollapp_path in
    record {
      rollapp_infos = none;
      selected_rollapp_info = some selected;
      rpc_service = some (get_rpc_service_from_selected_rollapp_info heap selected);
      denoms_metadata = some [];
      has_gotten_denoms_metadata = some false;
    }

-- `rollappPath === currentState.selectedRollappInfo?.path`
unfoldable pub is_selected_path : Heap → Option Ref → Str → Bool
is_selected_path heap none rollapp_path = false
is_selected_path heap (some r) rollapp_path = rollapp_path === (heap r).path

-- `favoriteRollapps[chain_id] || false`
abbrev pub is_marked : Dict Bool → Str → Bool
is_marked favorites chain_id = given (get favorites chain_id) false

abbrev pub update : Heap → Ref → RollappInfo → Heap
update heap r i q = if q == r then i else heap q

-- `rollappInfo.isFavorite = …` for each object, in place
unfoldable pub mark_favorites : Dict Bool → List Ref → Heap → Heap
mark_favorites favorites [] heap = heap
mark_favorites favorites (r ∷ rs) heap =
    mark_favorites favorites rs
      (update heap r (record (heap r) { is_favorite = is_marked favorites (heap r).chain_id }))

-- `currentState.selectedRollappInfo?.chain_id === chainId`
unfoldable pub is_selected_chain : Heap → Option Ref → Str → Bool
is_selected_chain heap none chain_id = false
is_selected_chain heap (some r) chain_id = (heap r).chain_id === chain_id

module _ (locale : Locale) where
  -- The comparator: favorites first, then by name.
  unfoldable pub by_favorite : RollappInfo → RollappInfo → Ordering
  by_favorite a b =
      if a.is_favorite && not b.is_favorite
      then Ordering.lt
      else if b.is_favorite && not a.is_favorite
      then Ordering.gt
      else locale.locale_compare a.name b.name

  unfoldable pub sort_by_favorite : Heap → List Ref → List Ref
  unfolding by_favorite
  sort_by_favorite heap = sort (λ a b. by_favorite (heap a) (heap b))

  unfoldable pub re_order : World → RollappState → Option (Str × Bool) → World × Patch
  unfolding mark_favorites sort_by_favorite is_selected_chain get_favorite_rollapps
      set_favorite_rollapps
  re_order w s none =
      let favorites = get_favorite_rollapps w.storage in
      let heap = mark_favorites favorites s.rollapp_infos w.heap in
      (
        record w { heap = heap },
        record empty_patch { rollapp_infos = some (sort_by_favorite heap s.rollapp_infos) },
      )
  re_order w s (some (chain_id, is_favorite)) =
      let favorites = set (get_favorite_rollapps w.storage) chain_id is_favorite in
      let heap = mark_favorites favorites s.rollapp_infos w.heap in
      let sorted = sort_by_favorite heap s.rollapp_infos in
      (
        record { heap = heap; storage = set_favorite_rollapps favorites },
        record empty_patch {
          rollapp_infos = some sorted;
          selected_rollapp_info =
              if is_selected_chain heap s.selected_rollapp_info chain_id
              then some (find (λ r. (heap r).chain_id === chain_id) sorted)
              else none;
        },
      )

  unfoldable pub act : World → RollappState → Action → World × Patch
  unfolding populate is_selected_path re_order
  act w s (populate_chain_data_by_pathname rollapp_path) =
      if is_selected_path w.heap s.selected_rollapp_info rollapp_path
      then (w, empty_patch)
      else (w, populate w.heap s rollapp_path)
  act w s (update_denoms_metadata denoms_metadata) = (
    w,
    record empty_patch {
      denoms_metadata = some denoms_metadata;
      has_gotten_denoms_metadata = some true;
    },
  )
  act w s (re_order_rollapps new_favorite_info) = re_order w s new_favorite_info
