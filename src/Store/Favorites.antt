-- ===== src/Store/Favorites.antt =====
-- Marking a favorite (RE_ORDER_ROLLAPPS): what it stores, what it shows, and the new order.
use mathlib.Core.List.{Perm}
use dymension_rollapp_block.Common.{◌≡◌, refl, Bool, some, Member}
use dymension_rollapp_block.Common.Text.{Str}
use dymension_rollapp_block.Common.Dict.{set}
use dymension_rollapp_block.Common.Locale.{Locale}
use dymension_rollapp_block.Common.Sort.{sort-perm, sort-IsSorted}
use dymension_rollapp_block.Rollapp.{get_favorite_rollapps}
use dymension_rollapp_block.Store.State.{Ref}
use dymension_rollapp_block.Store.Actions.{
  re_order_rollapps, is_marked, by_favorite, mark_favorites,
}
use dymension_rollapp_block.Store.Marks.{
  mark_favorites-chain_info, mark_favorites-path, mark_favorites_member,
}
use dymension_rollapp_block.Store.Order.{
  by_favorite_total, by_favorite_trans, AreFavoritesFirst, sorted-AreFavoritesFirst,
}
use dymension_rollapp_block.Store.{Store, dispatch}

-- Marking or unmarking a favorite stores the mark; every listed RollApp then shows the mark that
-- is stored for its chain id and is otherwise as it was; and the list is the old one in another order,
-- in which the favorites come before the others, and the names of the favorites are in the order of
-- the locale, as are those of the others.
pub favorite_marked :
    (locale : Locale) (store : Store) (chain_id : Str) (is_favorite : Bool) (r : Ref)
    → Member r store.state.rollapp_infos
    → let favorites = set (get_favorite_rollapps store.world.storage) chain_id is_favorite in
      let after = dispatch locale store (re_order_rollapps (some (chain_id, is_favorite))) in
      (after.world.storage ≡ some favorites)
      × ((after.world.heap r).is_favorite ≡ is_marked favorites (store.world.heap r).chain_id)
      × ((after.world.heap r).chain_info ≡ (store.world.heap r).chain_info)
      × ((after.world.heap r).path ≡ (store.world.heap r).path)
      × Perm after.state.rollapp_infos store.state.rollapp_infos
      × AreFavoritesFirst locale after.world.heap after.state.rollapp_infos
unfolding dispatch
favorite_marked locale store chain_id is_favorite r m =
    let favorites = set (get_favorite_rollapps store.world.storage) chain_id is_favorite in
    let rs = store.state.rollapp_infos in
    let heap = store.world.heap in
    let after = mark_favorites favorites rs heap in
    (
      refl,
      mark_favorites_member favorites r rs heap m,
      mark_favorites-chain_info favorites r rs heap,
      mark_favorites-path favorites r rs heap,
      sort-perm _ rs,
      sorted-AreFavoritesFirst locale after _ (
          sort-IsSorted (λ a b. by_favorite locale (after a) (after b))
            (λ a b. by_favorite_total locale (after a) (after b))
            (λ a b c. by_favorite_trans locale (after a) (after b) (after c)) rs),
    )
