-- ===== src/Layout/Menu.antt =====
-- The menu of a small screen.
use dymension_rollapp_block.Common.{◌≡◌, ◌≢◌, refl, true, false, List, [], ◌∷◌, All, arith}
use dymension_rollapp_block.Layout.{
  LayoutState, LayoutEvent, ends_transition, toggles_menu, closes_menu, handle_menu_close,
  layout_step, layout_play,
}

abbrev IsClosing : LayoutState → Type 0
IsClosing s = (s.menu_open ≡ false) × (s.is_closing ≡ true)

step-IsClosing :
    (s : LayoutState) (e : LayoutEvent)
    → e ≢ ends_transition
    → IsClosing s
    → IsClosing (layout_step s e)
unfolding layout_step
step-IsClosing s e h c = ground arith

play-IsClosing :
    (s : LayoutState) (events : List LayoutEvent)
    → All (λ e. e ≢ ends_transition) events
    → IsClosing s
    → IsClosing (layout_play s events)
unfolding layout_play
play-IsClosing s [] h c = c
play-IsClosing s (e ∷ events) (n, h) c =
    play-IsClosing (layout_step s e) events h (step-IsClosing s e n c)

-- A menu that is closed, from whatever state, stays closed until a transition of the drawer ends,
-- however often it is toggled or closed and the search is opened or closed; the first toggle after
-- that opens it.
pub closed_until_transition :
    (s : LayoutState) (events : List LayoutEvent)
    → All (λ e. e ≢ ends_transition) events
    → ((layout_play (layout_step s closes_menu) events).menu_open ≡ false)
      × ((layout_step
            (layout_step (layout_play (layout_step s closes_menu) events) ends_transition)
            toggles_menu).menu_open
          ≡ true)
unfolding layout_step
closed_until_transition s events h =
    let (closed, closing) = play-IsClosing (handle_menu_close s) events h (refl, refl) in
    (closed, rw closed refl)
