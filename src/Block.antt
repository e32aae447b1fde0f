-- ===== src/Block.antt =====
-- The pages of blocks in web-app/src/components/client/block, and the page of one block in
-- web-app/src/app/[rollappPath]/block/[blockNo].
pub mod Recent
pub mod Numbers
pub mod Opened
pub mod Loading
use dymension_rollapp_block.Common.{
  ℕ, zero, suc, ◌+◌, ◌*◌, ◌^◌, Bool, true, false, not, ◌&&◌, ◌||◌, Option, none, some, [], ◌∷◌,
  ◌++◌, length, all, drop, ◌==◌, ltb, if◌then◌else◌,
}
use dymension_rollapp_block.Common.Text.{
  Str, text, ◌===◌, starts_with, is_digit, is_hex, span, skip,
}
use dymension_rollapp_block.Common.Decimal.{is_digits, parse_int, to_string}
use dymension_rollapp_block.Pagination.{Number, nan, num}
use dymension_rollapp_block.Pathname.{get_new_path_by_rollapp}
use dymension_rollapp_block.Search.Block.{is_block_no, parse_int_prefix, read_hex, some_hex}
use dymension_rollapp_block.Table.Block.{BlockDetail}

-- An address with a query: `path?block=…`.
pub record BlockQuery : Type 0 where
  pub path : Str
  pub block : Str

-- `getTxsDisplay` of _BlockListTable.tsx and of BlockDetailPage.tsx: a text, or a link.
pub data TxsDisplay : Type 0 where
  plain : Str → TxsDisplay
  link : (href : BlockQuery) → (shown : Str) → TxsDisplay

unfoldable pub txs_href : (pathname : Str) → (height : ℕ) → BlockQuery
unfolding get_new_path_by_rollapp to_string
txs_href pathname height = record {
  path = get_new_path_by_rollapp pathname (text "/txs");
  block = to_string height;
}

abbrev pub count_of : Option BlockDetail → ℕ
count_of none = 0
count_of (some block) = length block.txs

-- `{txCount} transaction{txCount > 1 && 's'}`
unfoldable pub transactions_text : ℕ → Str
unfolding to_string
transactions_text n = to_string n ++ text " transaction" ++ (if ltb 1 n then text "s" else [])

unfoldable pub get_detail_txs_display : Option BlockDetail → (pathname : Str) → TxsDisplay
unfolding txs_href transactions_text
get_detail_txs_display none pathname = plain (text "0 transaction")
get_detail_txs_display (some block) pathname =
    if length block.txs == 0
    then plain (text "0 transaction")
    else link (txs_href pathname block.height) (transactions_text (length block.txs))

-- The items of the page, the page of what is not found, or that of an error. An item that loads is a
-- skeleton.
pub data BlockDetailPage : Type 0 where
  not_found : BlockDetailPage
  fails : (message : Str) → BlockDetailPage
  loads : BlockDetailPage
  shows : (block_no : Number) → (time : Option ℕ) → (transactions : TxsDisplay) → BlockDetailPage

abbrev pub time_of : Option BlockDetail → Option ℕ
time_of none = none
time_of (some block) = some block.time_epoch_utc

-- `parseInt(params.blockNo)`. `thrown` is the error that the hook has thrown, if any, in place of
-- which the page of the error is shown.
unfoldable pub block_detail_page :
    (block_no : Str) (thrown : Option Str)
    → Option BlockDetail
    → (loading : Bool) → (pathname : Str) → BlockDetailPage
unfolding parse_int_prefix get_detail_txs_display
block_detail_page block_no (some message) block_detail loading pathname = fails message
block_detail_page block_no none block_detail true pathname = loads
block_detail_page block_no none none false pathname = not_found
block_detail_page block_no none (some block) false pathname =
    shows (parse_int_prefix block_no) (some block.time_epoch_utc)
      (get_detail_txs_display (some block) pathname)

-- `+s`, for a text of digits and letters: digits, digits with an exponent, `0x` with hexadecimal
-- digits, `0b` with binary ones, or not a number. (Numbers above 2^53 are taken to be exact.)
abbrev pub is_binary : Str → Bool
is_binary [] = false
is_binary (c ∷ s) = all (λ d. d == b'0' || d == b'1') (c ∷ s)

unfoldable pub read_binary : ℕ → Str → ℕ
read_binary n [] = n
read_binary n (c ∷ s) = read_binary (n * 2 + (if c == b'1' then 1 else 0)) s

-- What stands behind the leading digits.
abbrev pub with_exponent : (digits rest : Str) → Number
with_exponent [] rest = nan
with_exponent (d ∷ digits) [] = num (parse_int (d ∷ digits))
with_exponent (d ∷ digits) (c ∷ exponent) =
    if (c == b'e' || c == b'E') && is_digits exponent
    then num (parse_int (d ∷ digits) * 10 ^ parse_int exponent)
    else nan

unfoldable pub to_number : Str → Number
unfolding starts_with read_hex read_binary span skip
to_number s =
    if starts_with s (text "0x") || starts_with s (text "0X")
    then (if some_hex (drop 2 s) then num (read_hex 0 (drop 2 s)) else nan)
    else if (starts_with s (text "0b") || starts_with s (text "0B")) && is_binary (drop 2 s)
    then num (read_binary 0 (drop 2 s))
    else with_exponent (span is_digit s) (skip is_digit s)

-- The page of a block: a redirection to the RollApp's page, or the detail of `detail_no` above the
-- list of the transactions of the block `list_no`.
pub data BlockPage : Type 0 where
  redirected : Str → BlockPage
  block_shown : (detail_no list_no : Number) → BlockPage

unfoldable pub block_page : (rollapp_path block_no : Str) → BlockPage
unfolding is_block_no parse_int_prefix to_number
block_page rollapp_path block_no =
    if is_block_no block_no
    then block_shown (parse_int_prefix block_no) (to_number block_no)
    else redirected (b'/' ∷ rollapp_path)
