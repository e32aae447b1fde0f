-- ===== src/Pagination.antt =====
-- web-app/src/utils/common.ts: page numbers and page sizes from the query of a page's address,
-- and the offset of the rows to show (consts/setting.ts has the two constants). A JavaScript number
-- that is read from a query is `NaN` or a whole number that is not negative.
pub mod Bounds
pub mod Links
use dymension_rollapp_block.Common.{
  ℕ, zero, suc, ◌+◌, ◌-◌, ◌*◌, ◌/◌, Option, none, some, ◌==◌, min, if◌then◌else◌,
}
use dymension_rollapp_block.Common.Text.{Str}
use dymension_rollapp_block.Common.Decimal.{is_digits, parse_int}

-- `string | undefined | null`
pub data SearchParam : Type 0 where
  undefined null : SearchParam
  string : Str → SearchParam

pub data Number : Type 0 where
  nan : Number
  num : ℕ → Number

abbrev pub default_pagination_size : ℕ
default_pagination_size = 25

abbrev pub max_pagination_size : ℕ
max_pagination_size = 100

unfoldable pub get_number_from_string_param : SearchParam → Number
get_number_from_string_param undefined = nan
get_number_from_string_param null = nan
get_number_from_string_param (string s) = if is_digits s then num (parse_int s) else nan

unfoldable pub get_valid_page_size : Number → ℕ
get_valid_page_size nan = default_pagination_size
get_valid_page_size (num page_size) =
    if page_size == 0 then default_pagination_size else min page_size max_pagination_size

-- `Math.ceil(a / b)`, at a positive `b`
abbrev pub ceil_div : ℕ → ℕ → ℕ
ceil_div a b = (a + (b - 1)) / b

-- A page size of 0, which `get_valid_page_size` never returns, makes the quotient infinite.
unfoldable pub get_valid_page : Number → ℕ → Option ℕ → ℕ
get_valid_page nan page_size total = 0
get_valid_page (num zero) page_size total = 0
get_valid_page (num (suc page)) page_size none = suc page
get_valid_page (num (suc page)) page_size (some total) =
    if total == 0
    then 0
    else if page_size == 0
    then suc page
    else min (ceil_div total page_size - 1) (suc page)

unfoldable pub get_page_and_page_size_from_string_param :
    SearchParam → SearchParam → Option ℕ → ℕ × ℕ
unfolding get_valid_page_size get_valid_page get_number_from_string_param
get_page_and_page_size_from_string_param page_size_param page_param total =
    let page_size = get_valid_page_size (get_number_from_string_param page_size_param) in
    let page = get_valid_page (get_number_from_string_param page_param) page_size total in
    (page_size, page)

unfoldable pub get_offset_from_page_and_page_size : Number → ℕ → ℕ
get_offset_from_page_and_page_size nan page_size = 0
get_offset_from_page_and_page_size (num page) page_size = page * page_size
