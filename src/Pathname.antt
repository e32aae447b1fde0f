-- ===== src/Pathname.antt =====
-- web-app/src/utils/common.ts: the parts of a page's address. The first segment names the RollApp.
pub mod Segments
pub mod Menu
use dymension_rollapp_block.Common.{
  ℕ, Bool, true, false, ◌&&◌, Option, none, some, List, [], ◌∷◌, ◌++◌, ◌==◌, if◌then◌else◌,
}
use dymension_rollapp_block.Common.Text.{Str, text, ◌===◌, split}

-- The longest prefix without a slash, and what stands behind it.
unfoldable pub segment : Str → Str
segment [] = []
segment (c ∷ s) = if c == b'/' then [] else c ∷ segment s

unfoldable pub after_segment : Str → Str
after_segment [] = []
after_segment (c ∷ s) = if c == b'/' then c ∷ s else after_segment s

-- `pathname.match(/^\/[^\/]*/)![0]`; `none` is the `TypeError` of a failed match.
unfoldable pub get_rollapp_path_from_pathname : Str → Option Str
unfolding segment
get_rollapp_path_from_pathname [] = none
get_rollapp_path_from_pathname (c ∷ s) = if c == b'/' then some (c ∷ segment s) else none

-- `/(?<=^\/[^\/]*\/)not-found$/.test(pathname)`
unfoldable pub is_not_found_path : Str → Bool
unfolding after_segment
is_not_found_path [] = false
is_not_found_path (c ∷ s) = c == b'/' && after_segment s === text "/not-found"

-- A template's text for `slittedPath[1]`, which may be undefined, behind its slash.
abbrev second_piece : List Str → Str
second_piece [] = text "undefined"
second_piece (_ ∷ []) = text "undefined"
second_piece (_ ∷ [] ∷ _) = []
second_piece (_ ∷ (c ∷ s) ∷ _) = b'/' ∷ c ∷ s

unfoldable pub get_new_path_by_rollapp : Str → Str → Str
unfolding split
get_new_path_by_rollapp pathname new_path = second_piece (split pathname b'/') ++ new_path
