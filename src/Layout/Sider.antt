-- ===== src/Layout/Sider.antt =====
-- What the menu shows: web-app/src/components/client/commons/Layout/_Sider.tsx and
-- web-app/src/components/client/commons/RollappSelect.tsx.
use dymension_rollapp_block.Common.{Bool, true, false, Option, none, some, List, [], ◌∷◌, ◌++◌, map}
use dymension_rollapp_block.Common.Text.{Str, text, ◌===◌}
use dymension_rollapp_block.Rollapp.{RollappInfo}
use dymension_rollapp_block.Hooks.Queries.{modules}
use dymension_rollapp_block.Pathname.{get_new_path_by_rollapp}
use dymension_rollapp_block.Pathname.Menu.{check_selected}

pub record MenuItem : Type 0 where
  pub path : Str
  pub selected_path : List Str
  pub name : Str
  pub is_nested : Bool

-- A template's text for `MODULES[0]`, which may be undefined.
abbrev pub first_module : List Str → Str
first_module [] = text "undefined"
first_module (m ∷ ms) = m

abbrev pub item : (name path : Str) → (selected_path : List Str) → MenuItem
item name path selected_path = record {
  path = path;
  selected_path = selected_path;
  name = name;
  is_nested = false;
}

abbrev pub nested_item : (name path : Str) → (selected_path : List Str) → MenuItem
nested_item name path selected_path = record {
  path = path;
  selected_path = selected_path;
  name = name;
  is_nested = true;
}

-- The items below "Governance", which are not mounted where the group is closed.
abbrev pub governance_items : (governance_open : Bool) → List MenuItem
governance_items false = []
governance_items true =
    nested_item (text "Governors") (text "/governors") []
    ∷ nested_item (text "Proposals") (text "/proposals") (text "/proposal" ∷ [])
    ∷ []

unfoldable pub menu_items : (governance_open : Bool) → List MenuItem
unfolding modules
menu_items governance_open =
    item (text "Overview") (text "/") []
    ∷ item (text "Blocks") (text "/blocks") (text "/block" ∷ [])
    ∷ item (text "Transactions") (text "/txs") (text "/tx" ∷ [])
    ∷ (governance_items governance_open
        ++ item (text "Params") (text "/params/" ++ first_module modules) (text "/params" ∷ [])
          ∷ [])

pub record MenuLink : Type 0 where
  pub href : Str
  pub name : Str
  pub is_nested : Bool
  pub is_selected : Bool

unfoldable pub menu_link : (pathname : Str) → MenuItem → MenuLink
unfolding check_selected get_new_path_by_rollapp
menu_link pathname i = record {
  href = get_new_path_by_rollapp pathname i.path;
  name = i.name;
  is_nested = i.is_nested;
  is_selected = check_selected pathname i.path i.selected_path;
}

pub record RollappOption : Type 0 where
  pub value : Str
  pub name : Str
  pub chain_id : Str
  pub is_selected : Bool

unfoldable pub rollapp_options : List RollappInfo → (value : Str) → List RollappOption
unfolding ◌===◌
rollapp_options [] value = []
rollapp_options (rollapp ∷ rollapp_infos) value =
    record {
      value = rollapp.path;
      name = rollapp.name;
      chain_id = rollapp.chain_id;
      is_selected = rollapp.path === value;
    }
    ∷ rollapp_options rollapp_infos value

pub record Sider : Type 0 where
  pub selected : Str
  pub options : List RollappOption
  pub links : List MenuLink

-- `selectedRollappInfo?.path || ''`
abbrev pub path_or_empty : Option RollappInfo → Str
path_or_empty none = []
path_or_empty (some rollapp) = rollapp.path

unfoldable pub sider :
    List RollappInfo → Option RollappInfo → (pathname : Str) → (governance_open : Bool) → Sider
unfolding rollapp_options menu_items menu_link
sider rollapp_infos selected_rollapp_info pathname governance_open = record {
  selected = path_or_empty selected_rollapp_info;
  options = rollapp_options rollapp_infos (path_or_empty selected_rollapp_info);
  links = map (menu_link pathname) (menu_items governance_open);
}
