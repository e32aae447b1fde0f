-- ===== src/Pathname/Menu.antt =====
-- The menu, web-app/src/components/client/commons/Layout/_Sider.tsx: which item is selected, and where
-- the choice of another RollApp leads.
use dymension_rollapp_block.Common.{
  ◌≡◌, refl, sym, ap, ◌∙◌, Bool, true, false, ◌&&◌, ◌||◌, List, [], ◌∷◌, ◌++◌, append-nil,
  append_assoc, any, length, ◌==◌, arith, if◌then◌else◌,
}
use dymension_rollapp_block.Common.Text.{Str, text, ◌===◌, split, split_from}
use dymension_rollapp_block.Pathname.{after_segment, is_not_found_path}
use dymension_rollapp_block.Pathname.Segments.{NoSlash, IsBehind, first_piece, segment-append}

-- A template's text for `splittedPath[2]`, which may be undefined.
abbrev pub third_piece : List Str → Str
third_piece [] = text "undefined"
third_piece (_ ∷ []) = text "undefined"
third_piece (_ ∷ _ ∷ []) = text "undefined"
third_piece (_ ∷ _ ∷ s ∷ _) = s

unfoldable pub check_selected : (pathname path : Str) → (selected_paths : List Str) → Bool
unfolding split ◌===◌
check_selected pathname path selected_paths =
    let splitted_path = split pathname b'/' in
    let path_to_check = b'/' ∷ third_piece splitted_path in
    if path === text "/" && length splitted_path == 2
    then true
    else path_to_check === path || any (λ p. p === path_to_check) selected_paths

-- `pathname.replace(/^\/[^\/]*/, value)`
abbrev pub with_rollapp : (pathname value : Str) → Str
with_rollapp [] value = []
with_rollapp (c ∷ s) value = if c == b'/' then value ++ after_segment s else c ∷ s

unfoldable pub select_rollapp : (pathname value : Str) → Str
unfolding is_not_found_path after_segment
select_rollapp pathname value =
    if is_not_found_path pathname then value else with_rollapp pathname value

pub split_behind :
    (s t cur : Str)
    → NoSlash s
    → split_from b'/' cur (s ++ b'/' ∷ t) ≡ (cur ++ s) ∷ split_from b'/' [] t
unfolding split_from
split_behind [] t cur h = ap (λ p. p ∷ split_from b'/' [] t) (sym (append-nil cur))
split_behind (c ∷ s) t cur (no_slash, h) =
    let other : (c == b'/') ≡ false = ground arith in
    rw other (
      split_behind s t (cur ++ c ∷ []) h
      ∙ ap (λ p. p ∷ split_from b'/' [] t) (append_assoc cur (c ∷ []) s))

-- On a page of a RollApp, whatever stands behind the page's name in the address, the selected items
-- of the menu are the one with the page's path and those that name it among their selected paths.
pub menu_selected :
    (seg name rest path : Str) (selected_paths : List Str)
    → NoSlash seg
    → NoSlash name
    → IsBehind rest
    → check_selected (b'/' ∷ (seg ++ b'/' ∷ (name ++ rest))) path selected_paths
      ≡ ((b'/' ∷ name) === path || any (λ p. p === b'/' ∷ name) selected_paths)
unfolding check_selected split_from
menu_selected seg name rest path selected_paths h k b =
    let (pieces, e) = first_piece [] (name ++ rest) in
    let pieced : split_from b'/' [] (seg ++ b'/' ∷ (name ++ rest)) ≡ seg ∷ name ∷ pieces =
      split_behind seg (name ++ rest) [] h
      ∙ ap (λ ps. seg ∷ ps) (e ∙ ap (λ s. s ∷ pieces) (segment-append name rest k b)) in
    let long : (path === text "/" && length ([] ∷ seg ∷ name ∷ pieces) == 2) ≡ false =
      ground arith in
    rw (pieced, long) refl
