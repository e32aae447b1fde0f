-- ===== src/Pagination/Links.antt =====
-- The links of a paginated table: a page number is printed into the query, and read back.
use dymension_rollapp_block.Common.{
  ℕ, zero, suc, ◌+◌, ◌*◌, ◌/◌, ◌≤◌, ◌<◌, ◌≡◌, ◌↔◌, refl, some, arith,
}
use dymension_rollapp_block.Common.Decimal.{to_string, parse_int-to_string, is_digits-to_string}
use dymension_rollapp_block.Pagination.{
  string, num, get_number_from_string_param, get_valid_page_size, get_valid_page,
  get_page_and_page_size_from_string_param, get_offset_from_page_and_page_size,
}

pub number-to_string : (n : ℕ) → get_number_from_string_param (string (to_string n)) ≡ num n
unfolding get_number_from_string_param
number-to_string n = rw (is_digits-to_string n, parse_int-to_string n)

valid_page_of_starts :
    (page size total : ℕ)
    → 1 ≤ size
    → page * size < total
    → get_valid_page (num page) size (some total) ≡ page
unfolding get_valid_page
valid_page_of_starts zero size total h k = refl
valid_page_of_starts (suc page) size total h k = grind arith

valid_page_size_of_range : (n : ℕ) → 1 ≤ n → n ≤ 100 → get_valid_page_size (num n) ≡ n
unfolding get_valid_page_size
valid_page_size_of_range n h k = ground arith

-- A link that names a size between 1 and 100 and a page that starts before the total leads to
-- exactly that size and that page.
pub page_link_round_trip :
    (size page total : ℕ)
    → 1 ≤ size
    → size ≤ 100
    → page * size < total
    → get_page_and_page_size_from_string_param
        (string (to_string size))
        (string (to_string page))
        (some total)
      ≡ (size, page)
unfolding get_page_and_page_size_from_string_param
page_link_round_trip size page total h k l = rw (
  number-to_string size,
  number-to_string page,
  valid_page_size_of_range size h k,
  valid_page_of_starts page size total h l,
)

-- A row of the table stands in the rows of a page: they start at the page's offset.
abbrev pub Shows : ℕ → ℕ → ℕ → Type 0
Shows page size row =
    (get_offset_from_page_and_page_size (num page) size ≤ row)
    × (row < get_offset_from_page_and_page_size (num page) size + size)

page_of_row : (size row page : ℕ) → page * size ≤ row → row < page * size + size → page ≡ row / size
page_of_row size row page h k = grind arith

page_starts-le : (size row : ℕ) → row / size * size ≤ row
page_starts-le size row = grind arith

row-lt-page_ends : (size row : ℕ) → 1 ≤ size → row < row / size * size + size
row-lt-page_ends size row h = grind arith

-- At a size between 1 and 100 every row before the total is shown by the page `row / size` and by
-- no other, and a link that names that size and that page leads there.
pub row_reachable :
    (size row total page : ℕ)
    → 1 ≤ size
    → size ≤ 100
    → row < total
    → (get_page_and_page_size_from_string_param
          (string (to_string size))
          (string (to_string (row / size)))
          (some total)
        ≡ (size, row / size))
      × (Shows page size row ↔ (page ≡ row / size))
unfolding get_offset_from_page_and_page_size
row_reachable size row total page h k l =
    let starts = page_starts-le size row in
    (
      page_link_round_trip size (row / size) total h k (omega arith),
      (
        λ shown. page_of_row size row page shown.0 shown.1,
        λ e. rw e (starts, row-lt-page_ends size row h),
      ),
    )
