-- ===== src/Table.antt =====
-- The tables of the pages: web-app/src/components/commons/DataTable.tsx, and what the lists of
-- web-app/src/components/client give it. A row is what stands for it, without its React nodes.
pub mod Slices
pub mod Coins
pub mod Tokens
pub mod Block
pub mod Transactions
pub mod Validators
pub mod Staking
use dymension_rollapp_block.Common.{
  ℕ, zero, suc, ◌+◌, ◌-◌, ◌*◌, ◌<◌, ◌≡◌, ◌⊎◌, Bool, true, false, ◌&&◌, ◌||◌, Option, none, some,
  List, [], ◌∷◌, map, take, drop, length, ltb, if◌then◌else◌,
}

-- `xs.slice(from, to)`, at indices that are not negative
unfoldable pub slice : {A : Type 0} → List A → ℕ → ℕ → List A
slice xs from to = take (to - from) (drop from xs)

-- The properties of `DataTable` that decide what it shows.
pub record Table (R : Type 0) : Type 0 where
  pub body : List R
  pub total : Option ℕ
  pub page : ℕ
  pub page_size : ℕ
  pub loading : Bool
  pub loading_items : Option ℕ
  pub enable_pagination : Bool

-- A row of the body, or one of skeletons.
pub data Row (R : Type 0) : Type 0 where
  row : R → Row R
  skeleton : Row R

abbrev pub skeletons : {R : Type 0} → ℕ → List (Row R)
skeletons zero = []
skeletons (suc n) = skeleton ∷ skeletons n

-- `loadingItems || pageSize`
abbrev pub items_or : Option ℕ → ℕ → ℕ
items_or none page_size = page_size
items_or (some zero) page_size = page_size
items_or (some (suc n)) page_size = suc n

unfoldable pub rows : {R : Type 0} → Table R → List (Row R)
rows t = if t.loading then skeletons (items_or t.loading_items t.page_size) else map row t.body

-- `enablePagination && (total === undefined || total > pageSize)`
unfoldable pub show_pagination : {R : Type 0} → Table R → Bool
show_pagination t = t.enable_pagination && elim t.total [ none ↦ true | some n ↦ ltb t.page_size n ]

pub data View (R : Type 0) : Type 0 where
  no_data : View R
  table : List (Row R) → (pagination : Bool) → View R

unfoldable pub data_table : {R : Type 0} → Table R → View R
unfolding rows show_pagination
data_table t = elim (rows t) [ [] ↦ no_data | r ∷ rs ↦ table (r ∷ rs) (show_pagination t) ]

-- The page that is open, and, where there is a pagination, the pages that begin before the total:
-- the pages that a reader can turn to.
abbrev pub IsReachable : {R : Type 0} → Table R → ℕ → Type 0
IsReachable t p =
    (p ≡ t.page)
    ⊎ ((show_pagination t ≡ true) × ((n : ℕ) × (t.total ≡ some n) × (p * t.page_size < n)))
