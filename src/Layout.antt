-- ===== src/Layout.antt =====
-- The frame of the pages: web-app/src/components/client/commons/Layout/index.tsx,
-- web-app/src/components/client/commons/ThemeProvider.tsx, web-app/src/app/layout.tsx and
-- web-app/src/app/[rollappPath]/layout.tsx.
pub mod Menu
pub mod Breadcrumb
pub mod Trail
pub mod Sider
pub mod Selected
pub mod Params
pub mod Logo
use dymension_rollapp_block.Common.{
  Bool, true, false, not, Option, none, some, List, [], ◌∷◌, ◌++◌, if◌then◌else◌,
}
use dymension_rollapp_block.Common.Text.{Str, text, ◌===◌}
use dymension_rollapp_block.Common.Locale.{Locale}
use dymension_rollapp_block.Rollapp.{ChainInfo, RollappInfo, get_roll_app_info_by_rollapp_path}

-- `is_closing` is the reference that outlives a rendering.
pub record LayoutState : Type 0 where
  pub menu_open : Bool
  pub is_search_open : Bool
  pub is_closing : Bool

abbrev pub initial_layout : LayoutState
initial_layout = record { menu_open = false; is_search_open = false; is_closing = false }

pub data LayoutEvent : Type 0 where
  toggles_menu closes_menu ends_transition opens_search closes_search : LayoutEvent

unfoldable pub handle_menu_toggle : LayoutState → LayoutState
handle_menu_toggle s = if s.is_closing then s else record s { menu_open = not s.menu_open }

unfoldable pub handle_menu_close : LayoutState → LayoutState
handle_menu_close s = record s { is_closing = true; menu_open = false }

unfoldable pub handle_drawer_transition_end : LayoutState → LayoutState
handle_drawer_transition_end s = record s { is_closing = false }

unfoldable pub layout_step : LayoutState → LayoutEvent → LayoutState
unfolding handle_menu_toggle handle_menu_close handle_drawer_transition_end
layout_step s toggles_menu = handle_menu_toggle s
layout_step s closes_menu = handle_menu_close s
layout_step s ends_transition = handle_drawer_transition_end s
layout_step s opens_search = record s { is_search_open = true }
layout_step s closes_search = record s { is_search_open = false }

unfoldable pub layout_play : LayoutState → List LayoutEvent → LayoutState
unfolding layout_step
layout_play s [] = s
layout_play s (e ∷ events) = layout_play (layout_step s e) events

abbrev pub light : Str
light = text "light"

abbrev pub dark : Str
dark = text "dark"

-- The theme that the cookie names, whatever its text.
unfoldable pub theme_of_cookie : Option Str → Str
theme_of_cookie none = dark
theme_of_cookie (some cookie) = cookie

-- The new theme, which is the new value of the cookie too.
unfoldable pub handle_theme_toggle : Str → Str
unfolding ◌===◌
handle_theme_toggle theme = if theme === light then dark else light

pub record Metadata : Type 0 where
  pub title : Str
  pub description : Str

module _ (locale : Locale) where
  -- `(rollappInfo?.name || '').toUpperCase()`
  abbrev pub upper_name : Option RollappInfo → Str
  upper_name none = locale.to_upper_case []
  upper_name (some info) = locale.to_upper_case info.name

  -- `getRollAppInfoByRollappPath` is asked for the segment of the address.
  unfoldable pub generate_metadata : List ChainInfo → (rollapp_path : Str) → Metadata
  unfolding get_roll_app_info_by_rollapp_path
  generate_metadata chain_infos rollapp_path =
      let name = upper_name (get_roll_app_info_by_rollapp_path locale chain_infos rollapp_path) in
      record {
        title = name ++ text " Block Explorer";
        description = text "Exploring RollApp " ++ name ++ text " on Dymension";
      }

  -- Where a page of an unknown RollApp is redirected to.
  unfoldable pub rollapp_layout : List ChainInfo → (rollapp_path : Str) → Option Str
  unfolding get_roll_app_info_by_rollapp_path
  rollapp_layout chain_infos rollapp_path =
      elim (get_roll_app_info_by_rollapp_path locale chain_infos rollapp_path) [
        | none ↦ some (text "/")
        | some info ↦ none
      ]
