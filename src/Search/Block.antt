-- ===== src/Search/Block.antt =====
-- The search for a block by its number: `isBlockNo` of utils/common.ts and `getBlockSearchResult` of
-- services/search.service.ts.
use dymension_rollapp_block.Common.{
  ℕ, ◌+◌, ◌*◌, Bool, false, ◌||◌, Option, none, some, List, [], ◌∷◌, filter, all, drop, leb,
  if◌then◌else◌,
}
use dymension_rollapp_block.Common.Text.{Str, text, starts_with, is_digit, is_hex, span}
use dymension_rollapp_block.Common.Decimal.{is_digits, parse_int}
use dymension_rollapp_block.Pagination.{Number, nan, num}
use dymension_rollapp_block.Rollapp.{RollappInfo}
use dymension_rollapp_block.Address.{behind_0x}
use dymension_rollapp_block.Address.Hex.{digit_value}

abbrev pub some_hex : Str → Bool
some_hex [] = false
some_hex (c ∷ s) = all is_hex (c ∷ s)

-- `/^\d+$|^(0x)?[\da-fA-F]+$/`
unfoldable pub is_block_no : Str → Bool
unfolding is_digits starts_with
is_block_no s = is_digits s || some_hex (behind_0x s)

-- The value of hexadecimal digits.
unfoldable pub read_hex : ℕ → Str → ℕ
unfolding digit_value
read_hex n [] = n
read_hex n (c ∷ s) = read_hex (n * 16 + digit_value c) s

abbrev parse_prefix : (Str → ℕ) → Str → Number
parse_prefix value [] = nan
parse_prefix value (c ∷ s) = num (value (c ∷ s))

-- `parseInt(s)` with no radix, for a text without space or sign in front: `0x` or `0X` makes the
-- digits hexadecimal, and what stands behind the leading digits is passed over.
unfoldable pub parse_int_prefix : Str → Number
unfolding starts_with span read_hex parse_int
parse_int_prefix s =
    if starts_with s (text "0x") || starts_with s (text "0X")
    then parse_prefix (read_hex 0) (span is_hex (drop 2 s))
    else parse_prefix parse_int (span is_digit s)

pub record BlockSearchResult : Type 0 where
  pub block : ℕ
  pub rollapp_infos : List RollappInfo

abbrev pub found : ℕ → List RollappInfo → Option BlockSearchResult
found block_no [] = none
found block_no (i ∷ is) = some (record { block = block_no; rollapp_infos = i ∷ is })

-- No height is at least `NaN`, so nothing is found for it.
abbrev pub search_number : Number → List RollappInfo → Option BlockSearchResult
search_number nan all_rollapp_infos = none
search_number (num block_no) all_rollapp_infos =
    found block_no (filter (λ i. leb block_no i.latest_indexed_block) all_rollapp_infos)

unfoldable pub get_block_search_result : Str → List RollappInfo → Option BlockSearchResult
unfolding is_block_no parse_int_prefix
get_block_search_result search_text all_rollapp_infos =
    let found_for = search_number (parse_int_prefix search_text) all_rollapp_infos in
    if is_block_no search_text then found_for else none
