-- ===== src/Tests/Layouts.antt =====
-- The menu and the star above the pages.
use dymension_rollapp_block.Common.{
  ◌≤◌, ◌≡◌, refl, true, not, some, List, [], ◌∷◌, ◌++◌, filter, length, here,
}
use dymension_rollapp_block.Common.Text.{Str, text}
use dymension_rollapp_block.Common.Locale.{ascii}
use dymension_rollapp_block.Rollapp.{RollappInfo, get_favorite_rollapps}
use dymension_rollapp_block.Store.Actions.{is_marked}
use dymension_rollapp_block.Layout.Sider.{sider}
use dymension_rollapp_block.Layout.Selected.{one_link_selected}
use dymension_rollapp_block.Layout.Logo.{logo, handle_click_favorite, star_turned}
use dymension_rollapp_block.Tests.Data.{dym_info, nim_info}
use dymension_rollapp_block.Tests.Stores.{opened}

abbrev rollapps : List RollappInfo
rollapps = dym_info ∷ nim_info ∷ []

abbrev block_path : Str
block_path = text "/nim" ++ text "/block/5"

one_link_selected_example :
    length (filter (λ l. l.is_selected) (sider rollapps (some nim_info) block_path true).links) ≤ 1
one_link_selected_example = one_link_selected rollapps (some nim_info) block_path true

star_turned_example :
    let after = handle_click_favorite ascii opened in
    ((logo ascii after block_path).is_starred ≡ not (logo ascii opened block_path).is_starred)
    × (is_marked (get_favorite_rollapps after.world.storage) (opened.world.heap 0).chain_id
        ≡ not (logo ascii opened block_path).is_starred)
star_turned_example = star_turned ascii opened block_path 0 refl here
