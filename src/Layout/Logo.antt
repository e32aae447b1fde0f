-- ===== src/Layout/Logo.antt =====
-- The name and the star above the pages of a RollApp,
-- web-app/src/components/client/commons/Layout/_Header/_Logo.tsx.
use dymension_rollapp_block.Common.{
  ◌≡◌, refl, ap, sym, ◌∙◌, Bool, true, false, not, Option, none, some, Member, find_of_member,
  find_sound,
}
use dymension_rollapp_block.Common.Text.{Str, text, ◌===◌, ===_self, eq_of_===}
use dymension_rollapp_block.Common.Dict.{Dict, set, get-set}
use dymension_rollapp_block.Common.Locale.{Locale}
use dymension_rollapp_block.Common.Sort.{sort, member_of_sort, sort_of_member}
use dymension_rollapp_block.Pathname.{get_new_path_by_rollapp}
use dymension_rollapp_block.Rollapp.{ChainInfo, get_favorite_rollapps}
use dymension_rollapp_block.Store.State.{Ref, Heap}
use dymension_rollapp_block.Store.Actions.{
  re_order_rollapps, is_marked, is_selected_chain, by_favorite, mark_favorites, sort_by_favorite,
}
use dymension_rollapp_block.Store.Marks.{mark_favorites-chain_info, mark_favorites_member}
use dymension_rollapp_block.Store.{Store, dispatch}

pub record Logo : Type 0 where
  pub app_name : Option Str
  pub logo_href : Str
  pub is_starred : Bool

-- `selectedRollappInfo?.isFavorite`
abbrev pub star_of : Heap → Option Ref → Bool
star_of heap none = false
star_of heap (some r) = (heap r).is_favorite

module _ (locale : Locale) where
  abbrev name_of : Heap → Option Ref → Option Str
  name_of heap none = none
  name_of heap (some r) = some (locale.to_upper_case (heap r).name)

  unfoldable pub logo : Store → (pathname : Str) → Logo
  unfolding get_new_path_by_rollapp
  logo store pathname = record {
    app_name = name_of store.world.heap store.state.selected_rollapp_info;
    logo_href = get_new_path_by_rollapp pathname (text "/");
    is_starred = star_of store.world.heap store.state.selected_rollapp_info;
  }

  abbrev click_of : Store → Option Ref → Store
  click_of store none = store
  click_of store (some r) =
      let rollapp = store.world.heap r in
      dispatch locale store (re_order_rollapps (some (rollapp.chain_id, not rollapp.is_favorite)))

  unfoldable pub handle_click_favorite : Store → Store
  unfolding dispatch
  handle_click_favorite store = click_of store store.state.selected_rollapp_info

-- A mark that is just written is the one that is read.
is_marked-set :
    (favorites : Dict Bool) (chain_id : Str) (mark : Bool)
    → is_marked (set favorites chain_id mark) chain_id ≡ mark
is_marked-set favorites chain_id mark =
    rw (get-set favorites chain_id chain_id mark, ===_self chain_id) refl

-- A mark of the selected RollApp's chain is shown by what is selected then.
selected_marked :
    (locale : Locale) (store : Store) (r : Ref) (mark : Bool)
    → store.state.selected_rollapp_info ≡ some r
    → Member r store.state.rollapp_infos
    → let after =
        dispatch locale store (re_order_rollapps (some ((store.world.heap r).chain_id, mark))) in
      star_of after.world.heap after.state.selected_rollapp_info ≡ mark
unfolding dispatch sort_by_favorite is_selected_chain
selected_marked locale store r mark selected m =
    let heap = store.world.heap in
    let rs = store.state.rollapp_infos in
    let id = (heap r).chain_id in
    let favorites = set (get_favorite_rollapps store.world.storage) id mark in
    let heap2 = mark_favorites favorites rs heap in
    let order = λ (a b : Ref). by_favorite locale (heap2 a) (heap2 b) in
    let chain : (q : Ref) → (heap2 q).chain_id ≡ (heap q).chain_id =
      λ q. ap (λ (c : ChainInfo). c.chain_id) (mark_favorites-chain_info favorites q rs heap) in
    let here_selected : ((heap2 r).chain_id === id) ≡ true = rw (chain r) (===_self id) in
    let (z, found) =
      find_of_member (λ q. (heap2 q).chain_id === id) r (sort order rs)
        (sort_of_member order r rs m) here_selected in
    let (mz, same) = find_sound (λ q. (heap2 q).chain_id === id) (sort order rs) z found in
    let marked : (heap2 z).is_favorite ≡ mark =
      mark_favorites_member favorites z rs heap (member_of_sort order z rs mz)
      ∙ ap (λ i. is_marked favorites i) (sym (chain z) ∙ eq_of_=== (heap2 z).chain_id id same)
      ∙ is_marked-set (get_favorite_rollapps store.world.storage) id mark in
    rw (selected, here_selected, found, marked) refl

clicked :
    (locale : Locale) (store : Store) (r : Ref)
    → store.state.selected_rollapp_info ≡ some r
    → handle_click_favorite locale store
      ≡ dispatch locale store (
          re_order_rollapps
            (some ((store.world.heap r).chain_id, not (store.world.heap r).is_favorite)))
unfolding handle_click_favorite
clicked locale store r selected = ap (λ o. click_of locale store o) selected

-- Where the selected RollApp is a listed one, a click on the star turns it, and stores the new mark.
pub star_turned :
    (locale : Locale) (store : Store) (pathname : Str) (r : Ref)
    → store.state.selected_rollapp_info ≡ some r
    → Member r store.state.rollapp_infos
    → let after = handle_click_favorite locale store in
      ((logo locale after pathname).is_starred ≡ not (logo locale store pathname).is_starred)
      × (is_marked (get_favorite_rollapps after.world.storage) (store.world.heap r).chain_id
          ≡ not (logo locale store pathname).is_starred)
unfolding logo dispatch get_favorite_rollapps
star_turned locale store pathname r selected m =
    let mark = not (store.world.heap r).is_favorite in
    let before : not (logo locale store pathname).is_starred ≡ mark =
      ap (λ o. not (star_of store.world.heap o)) selected in
    rw (clicked locale store r selected) (
      selected_marked locale store r mark selected m ∙ sym before,
      is_marked-set (get_favorite_rollapps store.world.storage) (store.world.heap r).chain_id mark
          ∙ sym before,
    )
