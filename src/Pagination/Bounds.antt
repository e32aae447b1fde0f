-- ===== src/Pagination/Bounds.antt =====
-- The bounds of what the pagination of utils/common.ts returns, whatever the query holds.
use dymension_rollapp_block.Common.{
  ℕ, zero, suc, ◌-◌, ◌*◌, ◌≤◌, ◌<◌, ◌≡◌, ◌⊎◌, inl, inr, refl, ap, some, arith, min,
}
use dymension_rollapp_block.Pagination.{
  SearchParam, Number, nan, num, get_number_from_string_param, get_valid_page_size, get_valid_page,
  get_page_and_page_size_from_string_param, get_offset_from_page_and_page_size, ceil_div,
}

page_size_bounds : (n : Number) → (1 ≤ get_valid_page_size n) × (get_valid_page_size n ≤ 100)
unfolding get_valid_page_size
page_size_bounds nan = omega arith
page_size_bounds (num n) = ground arith

-- The last page starts before the end.
last_page_starts :
    (total size : ℕ) → 1 ≤ size → 1 ≤ total → (ceil_div total size - 1) * size < total
last_page_starts total size h k = grind arith

min_starts : (a b size total : ℕ) → a * size < total → min a b * size < total
min_starts a b size total h = grind arith

valid_page_starts :
    (n : Number) (size total : ℕ)
    → 1 ≤ size
    → 1 ≤ total
    → get_valid_page n size (some total) * size < total
unfolding get_valid_page
valid_page_starts nan size total h k = omega arith
valid_page_starts (num zero) size total h k = omega arith
valid_page_starts (num (suc page)) size total h k = ground (
  arith,
  last_page_starts total size h k,
  min_starts (ceil_div total size - 1) (suc page) size total,
)

valid_page-zero : (n : Number) (size : ℕ) → get_valid_page n size (some 0) ≡ 0
unfolding get_valid_page
valid_page-zero nan size = refl
valid_page-zero (num zero) size = refl
valid_page-zero (num (suc page)) size = refl

offset_bounds :
    (n : Number) (size total : ℕ)
    → 1 ≤ size
    → (get_valid_page n size (some total) * size < total)
      ⊎ ((total ≡ 0) × (get_valid_page n size (some total) * size ≡ 0))
offset_bounds n size zero h = inr (refl, rw (valid_page-zero n size) (omega arith))
offset_bounds n size (suc total) h = inl (valid_page_starts n size (suc total) h (omega arith))

-- Whatever the two parameters of the query are, the page size lies between 1 and 100, the rows to
-- skip are fewer than a positive total, and none are skipped where the total is 0.
pub pagination_bounds :
    (page_size_param page_param : SearchParam) (total size page : ℕ)
    → get_page_and_page_size_from_string_param page_size_param page_param (some total)
      ≡ (size, page)
    → (1 ≤ size)
      × (size ≤ 100)
      × ((get_offset_from_page_and_page_size (num page) size < total)
          ⊎ ((total ≡ 0) × (get_offset_from_page_and_page_size (num page) size ≡ 0)))
unfolding get_page_and_page_size_from_string_param get_offset_from_page_and_page_size
pagination_bounds page_size_param page_param total size page e =
    let n = get_number_from_string_param page_size_param in
    let m = get_number_from_string_param page_param in
    rw (← ap (λ r. r.0) e, ← ap (λ r. r.1) e)
      (
        (page_size_bounds n).0,
        (page_size_bounds n).1,
        offset_bounds m (get_valid_page_size n) total (page_size_bounds n).0,
      )
