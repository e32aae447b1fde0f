-- ===== src/Store/Coherent.antt =====
-- The invariant of the store's state, and that every action keeps it.
use dymension_rollapp_block.Common.{
  if◌then◌else◌, ◌≡◌, refl, sym, ap, ◌∙◌, inl, inr, Bool, true, Option, none, some, List, Member,
  find, find_sound, find_of_member, Bool-cases,
}
use dymension_rollapp_block.Common.Text.{Str, ◌===◌, ===_iff, eq_of_===}
use dymension_rollapp_block.Common.Dict.{Dict, set}
use dymension_rollapp_block.Common.Locale.{Locale}
use dymension_rollapp_block.Common.Sort.{member_of_sort, sort_of_member}
use dymension_rollapp_block.Rollapp.{ChainInfo, get_favorite_rollapps}
use dymension_rollapp_block.Store.State.{
  Ref, Heap, RollappState, DenomMetadata, empty_patch, first_url, given,
  get_selected_rollapp_info_by_pathname, get_rpc_service_from_selected_rollapp_info, merge,
}
use dymension_rollapp_block.Store.Actions.{
  Action, populate_chain_data_by_pathname, update_denoms_metadata, re_order_rollapps, World,
  populate, is_selected_path, mark_favorites, sort_by_favorite, is_selected_chain, re_order, act,
}
use dymension_rollapp_block.Store.Marks.{mark_favorites-chain_info}

-- The chain ids tell the listed objects apart; the selected RollApp is one of them; and the RPC
-- service is the one of the selected RollApp.
pub record IsCoherent (heap : Heap) (s : RollappState) : Type 0 where
  pub distinct :
      (r q : Ref)
      → Member r s.rollapp_infos
      → Member q s.rollapp_infos
      → (heap r).chain_id ≡ (heap q).chain_id
      → r ≡ q
  pub listed : (r : Ref) → s.selected_rollapp_info ≡ some r → Member r s.rollapp_infos
  pub served :
      s.rpc_service ≡ get_rpc_service_from_selected_rollapp_info heap s.selected_rollapp_info

populate-IsCoherent :
    (heap : Heap) (s : RollappState) (path : Str)
    → IsCoherent heap s
    → IsCoherent heap (merge s (populate heap s path))
unfolding merge populate get_selected_rollapp_info_by_pathname
populate-IsCoherent heap s path h = record {
  distinct = h.distinct;
  listed = λ r e. (find_sound _ s.rollapp_infos r e).0;
  served = refl;
}

merge_empty-IsCoherent :
    (heap : Heap) (s : RollappState) → IsCoherent heap s → IsCoherent heap (merge s empty_patch)
unfolding merge
merge_empty-IsCoherent heap s h = record {
  distinct = h.distinct;
  listed = h.listed;
  served = h.served;
}

denoms-IsCoherent :
    (heap : Heap) (s : RollappState) (denoms : Dict DenomMetadata)
    → IsCoherent heap s
    → IsCoherent heap (
        merge s (record empty_patch {
          denoms_metadata = some denoms;
          has_gotten_denoms_metadata = some true;
        }))
unfolding merge
denoms-IsCoherent heap s denoms h = record {
  distinct = h.distinct;
  listed = h.listed;
  served = h.served;
}

module _ (favorites : Dict Bool) (rs : List Ref) (heap : Heap) where
  pub marked_chain_id :
      (r : Ref) → (mark_favorites favorites rs heap r).chain_id ≡ (heap r).chain_id
  marked_chain_id r =
      ap (λ (c : ChainInfo). c.chain_id) (mark_favorites-chain_info favorites r rs heap)

  -- The service of a RollApp is that of its chain info.
  marked_service :
      (o : Option Ref)
      → get_rpc_service_from_selected_rollapp_info (mark_favorites favorites rs heap) o
        ≡ get_rpc_service_from_selected_rollapp_info heap o
  unfolding get_rpc_service_from_selected_rollapp_info
  marked_service none = refl
  marked_service (some r) =
      ap (λ (c : ChainInfo). first_url c.be_json_rpc_urls)
        (mark_favorites-chain_info favorites r rs heap)

module _ (locale : Locale) (favorites : Dict Bool) (heap : Heap) (s : RollappState)
    (h : IsCoherent heap s) where
  abbrev pub after : Heap
  after = mark_favorites favorites s.rollapp_infos heap

  abbrev pub sorted : List Ref
  sorted = sort_by_favorite locale after s.rollapp_infos

  unsorted : (r : Ref) → Member r sorted → Member r s.rollapp_infos
  unfolding sort_by_favorite
  unsorted r m = member_of_sort _ r s.rollapp_infos m

  reordered-IsCoherent :
      (t : RollappState)
      → t.rollapp_infos ≡ sorted
      → t.selected_rollapp_info ≡ s.selected_rollapp_info
      → t.rpc_service ≡ s.rpc_service
      → IsCoherent after t
  unfolding sort_by_favorite
  reordered-IsCoherent t infos selected service = record {
    distinct = λ r q m n e.
        h.distinct r q (unsorted r (rw infos at m)) (unsorted q (rw infos at n)) (
          sym (marked_chain_id favorites s.rollapp_infos heap r)
          ∙ e
          ∙ marked_chain_id favorites s.rollapp_infos heap q);
    listed = λ r e. rw infos (sort_of_member _ r s.rollapp_infos (h.listed r (sym selected ∙ e)));
    served =
        service
        ∙ h.served
        ∙ sym (marked_service favorites s.rollapp_infos heap s.selected_rollapp_info)
        ∙ ap (get_rpc_service_from_selected_rollapp_info after) (sym selected);
  }

  -- The object with the selected chain id is the selected one.
  pub selected_found :
      (r : Ref) (chain_id : Str)
      → s.selected_rollapp_info ≡ some r
      → (after r).chain_id ≡ chain_id
      → find (λ q. (after q).chain_id === chain_id) sorted ≡ some r
  unfolding sort_by_favorite
  selected_found r chain_id e c =
      let m = h.listed r e in
      let (q, found) =
        find_of_member (λ p. (after p).chain_id === chain_id) r sorted
          (sort_of_member _ r s.rollapp_infos m) ((===_iff _ _).1 c) in
      let (n, tested) = find_sound (λ p. (after p).chain_id === chain_id) sorted q found in
      let same : q ≡ r = h.distinct q r (unsorted q n) m (
        sym (marked_chain_id favorites s.rollapp_infos heap q)
        ∙ eq_of_=== _ _ tested
        ∙ sym c
        ∙ marked_chain_id favorites s.rollapp_infos heap r) in
      found ∙ ap some same

  kept_selected :
      (o : Option Ref) (chain_id : Str)
      → s.selected_rollapp_info ≡ o
      → given
          (if is_selected_chain after o chain_id
            then some (find (λ q. (after q).chain_id === chain_id) sorted)
            else none)
          o
        ≡ o
  unfolding is_selected_chain
  kept_selected none chain_id e = refl
  kept_selected (some r) chain_id e = elim (Bool-cases ((after r).chain_id === chain_id)) [
    | inl same ↦ rw (same, selected_found r chain_id e (eq_of_=== _ _ same))
    | inr other ↦ rw other
  ]

pub re_order-IsCoherent :
    (locale : Locale) (w : World) (s : RollappState) (favorite : Option (Str × Bool))
    → IsCoherent w.heap s
    → IsCoherent (re_order locale w s favorite).0.heap (merge s (re_order locale w s favorite).1)
unfolding merge re_order
re_order-IsCoherent locale w s none h =
    reordered-IsCoherent locale (get_favorite_rollapps w.storage) w.heap s h _ refl refl refl
re_order-IsCoherent locale w s (some (chain_id, is_favorite)) h =
    let favorites = set (get_favorite_rollapps w.storage) chain_id is_favorite in
    reordered-IsCoherent locale favorites w.heap s h _ refl
      (kept_selected locale favorites w.heap s h s.selected_rollapp_info chain_id refl) refl

pub act-IsCoherent :
    (locale : Locale) (w : World) (s : RollappState) (action : Action)
    → IsCoherent w.heap s
    → IsCoherent (act locale w s action).0.heap (merge s (act locale w s action).1)
unfolding act
act-IsCoherent locale w s (populate_chain_data_by_pathname path) h =
    elim (Bool-cases (is_selected_path w.heap s.selected_rollapp_info path)) [
      | inl same ↦ rw same (merge_empty-IsCoherent w.heap s h)
      | inr other ↦ rw other (populate-IsCoherent w.heap s path h)
    ]
act-IsCoherent locale w s (update_denoms_metadata denoms) h = denoms-IsCoherent w.heap s denoms h
act-IsCoherent locale w s (re_order_rollapps favorite) h = re_order-IsCoherent locale w s favorite h
