-- ===== src/Store/Provider.antt =====
-- web-app/src/components/client/commons/StoreProvider.tsx: how the store begins, and a session of
-- dispatches on it.
use mathlib.Core.Path.{subst}
use dymension_rollapp_block.Common.{
  ◌≡◌, refl, Option, none, some, List, [], ◌∷◌, Member, find_sound, Option-cases, inl, inr, arith,
}
use dymension_rollapp_block.Common.Text.{Str, ◌===◌}
use dymension_rollapp_block.Common.Locale.{Locale}
use dymension_rollapp_block.Pathname.{get_rollapp_path_from_pathname}
use dymension_rollapp_block.Store.State.{
  Ref, Heap, RollappState, Patch, default_rollapp_state, get_initial_rollapp_state,
  get_selected_rollapp_info_by_pathname, get_rpc_service_from_selected_rollapp_info,
}
use dymension_rollapp_block.Store.Actions.{Action, re_order_rollapps, World}
use dymension_rollapp_block.Store.{Store, dispatch, init_rollapp_store}
use dymension_rollapp_block.Store.Coherent.{IsCoherent}
use dymension_rollapp_block.Store.Dispatch.{dispatch-IsCoherent}

-- A state as the argument of `initRollappStore`
abbrev pub whole : RollappState → Patch
whole s = record {
  rollapp_infos = some s.rollapp_infos;
  selected_rollapp_info = some s.selected_rollapp_info;
  rpc_service = some s.rpc_service;
  denoms_metadata = some s.denoms_metadata;
  has_gotten_denoms_metadata = some s.has_gotten_denoms_metadata;
}

module _ (locale : Locale) where
  -- The first rendering and its effect. `none` is the exception of an address without a segment.
  unfoldable pub provide : World → List Ref → Str → Option Store
  unfolding get_initial_rollapp_state init_rollapp_store dispatch
  provide world rollapp_infos pathname =
      elim (get_initial_rollapp_state world.heap rollapp_infos pathname) [
        | none ↦ none
        | some s ↦
            some (dispatch locale (init_rollapp_store world (whole s)) (re_order_rollapps none))
      ]

  -- Dispatches one after another.
  unfoldable pub dispatch_all : Store → List Action → Store
  unfolding dispatch
  dispatch_all store [] = store
  dispatch_all store (action ∷ actions) = dispatch_all (dispatch locale store action) actions

  dispatch_all-IsCoherent :
      (store : Store) (actions : List Action)
      → IsCoherent store.world.heap store.state
      → IsCoherent (dispatch_all store actions).world.heap (dispatch_all store actions).state
  unfolding dispatch_all
  dispatch_all-IsCoherent store [] h = h
  dispatch_all-IsCoherent store (action ∷ actions) h =
      dispatch_all-IsCoherent (dispatch locale store action) actions
        (dispatch-IsCoherent locale store action h)

-- No two of the given objects have the same chain id.
abbrev pub IsDistinct : Heap → List Ref → Type 0
IsDistinct heap rs =
    (r q : Ref) → Member r rs → Member q rs → (heap r).chain_id ≡ (heap q).chain_id → r ≡ q

abbrev initial_at : Heap → List Ref → Str → RollappState
initial_at heap rs path = record default_rollapp_state {
  rollapp_infos = rs;
  selected_rollapp_info = get_selected_rollapp_info_by_pathname heap rs path;
  rpc_service =
      get_rpc_service_from_selected_rollapp_info heap
        (get_selected_rollapp_info_by_pathname heap rs path);
}

initial_at-IsCoherent :
    (heap : Heap) (rs : List Ref) (path : Str)
    → IsDistinct heap rs
    → IsCoherent heap (initial_at heap rs path)
unfolding get_selected_rollapp_info_by_pathname
initial_at-IsCoherent heap rs path d = record {
  distinct = d;
  listed = λ r e. (find_sound (λ q. (heap q).path === path) rs r e).0;
  served = refl;
}

initial_is :
    (heap : Heap) (rs : List Ref) (pathname : Str) (s : RollappState)
    → get_initial_rollapp_state heap rs pathname ≡ some s
    → (path : Str) × (initial_at heap rs path ≡ s)
unfolding get_initial_rollapp_state
initial_is heap rs pathname s e = elim (Option-cases (get_rollapp_path_from_pathname pathname)) [
  | inl is_none ↦ absurd (ground arith)
  | inr (path, is_path) ↦ (path, ground arith)
]

initial-IsCoherent :
    (heap : Heap) (rs : List Ref) (pathname : Str) (s : RollappState)
    → IsDistinct heap rs
    → get_initial_rollapp_state heap rs pathname ≡ some s
    → IsCoherent heap s
initial-IsCoherent heap rs pathname s d e =
    let (path, same) = initial_is heap rs pathname s e in
    subst (λ t. IsCoherent heap t) same (initial_at-IsCoherent heap rs path d)

abbrev first_store : Locale → World → RollappState → Store
first_store locale world s =
    dispatch locale (init_rollapp_store world (whole s)) (re_order_rollapps none)

first_store-IsCoherent :
    (locale : Locale) (world : World) (s : RollappState)
    → IsCoherent world.heap s
    → IsCoherent (first_store locale world s).world.heap (first_store locale world s).state
unfolding init_rollapp_store
first_store-IsCoherent locale world s h =
    dispatch-IsCoherent locale (init_rollapp_store world (whole s)) (re_order_rollapps none) h

provided :
    (locale : Locale) (world : World) (rs : List Ref) (pathname : Str) (store : Store)
    → provide locale world rs pathname ≡ some store
    → (s : RollappState) × (get_initial_rollapp_state world.heap rs pathname ≡ some s)
      × (first_store locale world s ≡ store)
unfolding provide
provided locale world rs pathname store e =
    elim (Option-cases (get_initial_rollapp_state world.heap rs pathname)) [
      | inl is_none ↦ absurd (ground arith)
      | inr (s, is_s) ↦ (s, is_s, ground arith)
    ]

-- From the first rendering on, with RollApps of different chain ids, the store is coherent after
-- any dispatches one after another: the listed RollApps have distinct chain ids, the selected
-- RollApp is a listed one, and the RPC service is that of the selected RollApp.
pub session-IsCoherent :
    (locale : Locale) (world : World) (rs : List Ref) (pathname : Str) (store : Store)
    (actions : List Action)
    → IsDistinct world.heap rs
    → provide locale world rs pathname ≡ some store
    → IsCoherent
        (dispatch_all locale store actions).world.heap
        (dispatch_all locale store actions).state
session-IsCoherent locale world rs pathname store actions d e =
    let (s, initial, same) = provided locale world rs pathname store e in
    let h = initial-IsCoherent world.heap rs pathname s d initial in
    dispatch_all-IsCoherent locale store actions
      (subst (λ t. IsCoherent t.world.heap t.state) same (first_store-IsCoherent locale world s h))
