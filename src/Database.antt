-- ===== src/Database.antt =====
-- web-app/src/services/db: the queries, as what they ask the package `@prisma/client` for, and what
-- is made of the rows. The package is a parameter: `Model` is one of its models, with what is
-- documented of `findMany` and `count`.
pub mod Chains
pub mod Accounts
pub mod Search
use dymension_rollapp_block.Common.{
  ℕ, ◌≡◌, ◌↔◌, Bool, true, Option, none, some, List, [], All, Member, length, take, drop,
}
use dymension_rollapp_block.Common.Text.{Str}

-- The object of a query: `orderBy` names columns of numbers, each from the greatest down.
pub record Query (Row Where : Type 0) : Type 0 where
  pub condition : Where
  pub order_by : List (Row → ℕ)
  pub skip : Option ℕ
  pub number : Option ℕ

-- A query without `orderBy` and without pages.
abbrev pub plain_query : {Row Where : Type 0} → Where → Query Row Where
plain_query condition = record { condition = condition; order_by = []; skip = none; number = none }

-- The columns of an order tell the rows of a condition apart.
abbrev pub AreToldApart :
    {Row Where : Type 0} (matches : Where → Row → Bool) (table : List Row) (condition : Where)
    → (order_by : List (Row → ℕ)) → Type 0
AreToldApart {Row = Row} matches table condition order_by =
    (r s : Row)
    → Member r table
    → Member s table
    → matches condition r ≡ true
    → matches condition s ≡ true
    → All (λ column. column r ≡ column s) order_by
    → r ≡ s

-- The rows of a table, which does not change between the queries of a page. The pages of a query are
-- the parts of one list where `orderBy` tells the rows apart; where it does not, the database may give
-- rows that it does not tell apart in another order to each query.
pub record Model (Row Where : Type 0) (matches : Where → Row → Bool) : Type 0 where
  pub table : List Row
  pub find_many : Query Row Where → List Row
  pub count : Where → ℕ
  pub found_iff :
      (r : Row) (condition : Where) (order_by : List (Row → ℕ))
      → Member r (
          find_many
            (record { condition = condition; order_by = order_by; skip = none; number = none }))
        ↔ (Member r table × (matches condition r ≡ true))
  pub paged :
      (q : Query Row Where) (skip number : ℕ)
      → AreToldApart matches table q.condition q.order_by
      → find_many (record q { skip = some skip; number = some number })
        ≡ take number (drop skip (find_many (record q { skip = none; number = none })))
  pub counted :
      (q : Query Row Where)
      → q.skip ≡ none
      → q.number ≡ none
      → count q.condition ≡ length (find_many q)
