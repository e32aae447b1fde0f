-- ===== src/Layout/Breadcrumb.antt =====
-- The trail above a page: web-app/src/components/commons/PageBreadcrumb.tsx, and `BreadcrumbName` of
-- web-app/src/consts/path.ts.
use dymension_rollapp_block.Common.{not, Option, none, some, List, [], ◌∷◌, filter, if◌then◌else◌}
use dymension_rollapp_block.Common.Text.{Str, text, ◌===◌, split}
use dymension_rollapp_block.Common.Decimal.{is_digits}
use dymension_rollapp_block.Common.Dict.{Dict, get}
use dymension_rollapp_block.Pathname.{get_new_path_by_rollapp}

unfoldable pub breadcrumb_name : Dict Str
breadcrumb_name =
    (text "/", text "Overview")
    ∷ (text "/blocks", text "Blocks")
    ∷ (text "/block", text "Blocks")
    ∷ (text "/txs", text "Transactions")
    ∷ (text "/tx", text "Transactions")
    ∷ (text "/address", text "Address")
    ∷ (text "/governors", text "Governors")
    ∷ (text "/proposals", text "Proposals")
    ∷ (text "/proposal", text "Proposal")
    ∷ (text "/params", text "Params")
    ∷ []

-- A link has no text where its page has no name.
pub data Crumb : Type 0 where
  crumb_link : (href : Str) → (shown : Option Str) → Crumb
  crumb_text : Str → Crumb

-- `breadcrumbName || (/^\d+$/.test(value) ? '#' + value : value)`
unfoldable pub last_text : Option Str → (value : Str) → Str
unfolding is_digits
last_text none value = if is_digits value then b'#' ∷ value else value
last_text (some name) value = name

-- The pieces behind the first one: the last is a text, and the others are links.
unfoldable pub crumbs_of : (pathname : Str) → List Str → List Crumb
unfolding get breadcrumb_name last_text get_new_path_by_rollapp
crumbs_of pathname [] = []
crumbs_of pathname (value ∷ []) =
    crumb_text (last_text (get breadcrumb_name (b'/' ∷ value)) value) ∷ []
crumbs_of pathname (value ∷ w ∷ values) =
    crumb_link (get_new_path_by_rollapp pathname (b'/' ∷ value))
      (get breadcrumb_name (b'/' ∷ value))
    ∷ crumbs_of pathname (w ∷ values)

-- The first piece is the RollApp's, and is left out.
abbrev behind_first : List Str → List Str
behind_first [] = []
behind_first (first ∷ values) = values

unfoldable pub page_breadcrumb : (pathname : Str) → List Crumb
unfolding split crumbs_of get_new_path_by_rollapp ◌===◌
page_breadcrumb pathname =
    crumb_link (get_new_path_by_rollapp pathname (text "/")) (some (text "Home"))
    ∷ crumbs_of pathname (behind_first (filter (λ s. not (s === [])) (split pathname b'/')))
