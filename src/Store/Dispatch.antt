-- ===== src/Store/Dispatch.antt =====
-- What a dispatch keeps, and what it tells the listeners (hooks/useStore.ts).
use dymension_rollapp_block.Common.{
  ℕ, ◌≡◌, ◌≢◌, refl, List, [], ◌∷◌, ◌++◌, map, not, filter, ◌==◌, All, arith, inl, inr, Bool-cases,
}
use dymension_rollapp_block.Common.Locale.{Locale}
use dymension_rollapp_block.Store.Actions.{Action}
use dymension_rollapp_block.Store.Coherent.{IsCoherent, act-IsCoherent}
use dymension_rollapp_block.Store.{Store, dispatch, unlisten}

-- A dispatch that nothing interleaves keeps the store coherent: the listed RollApps have distinct
-- chain ids, the
-- selected RollApp is a listed one, and the RPC service is that of the selected RollApp.
pub dispatch-IsCoherent :
    (locale : Locale) (store : Store) (action : Action)
    → IsCoherent store.world.heap store.state
    → IsCoherent (dispatch locale store action).world.heap (dispatch locale store action).state
unfolding dispatch
dispatch-IsCoherent locale store action h = act-IsCoherent locale store.world store.state action h

others_kept :
    (listener : ℕ) (ls : List ℕ) → All (λ l. l ≢ listener) (filter (λ li. not (li == listener)) ls)
others_kept listener [] = tt
others_kept listener (l ∷ ls) = elim (Bool-cases (l == listener)) [
  | inl same ↦ rw same (others_kept listener ls)
  | inr other ↦ rw other (ground arith, others_kept listener ls)
]

-- A listener that was taken off is not among the store's listeners, and a later dispatch calls
-- those once each, in order, with the state that it makes.
pub dispatch_after_unlisten :
    (locale : Locale) (store : Store) (action : Action) (listener : ℕ)
    → ((dispatch locale (unlisten store listener) action).heard
        ≡ store.heard
          ++ map
              (λ l. (l, (dispatch locale store action).state))
              (dispatch locale (unlisten store listener) action).listeners)
      × All (λ l. l ≢ listener) (dispatch locale (unlisten store listener) action).listeners
unfolding dispatch unlisten
dispatch_after_unlisten locale store action listener = (refl, others_kept listener store.listeners)
