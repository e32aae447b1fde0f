-- ===== src/Layout/Selected.antt =====
-- Which items of the menu are selected.
use dymension_rollapp_block.Common.{
  ℕ, ◌≤◌, ◌≡◌, inl, inr, refl, Bool, true, false, ◌&&◌, ◌||◌, Option, List, [], ◌∷◌, map, filter,
  any, length, ◌==◌, arith, Bool-cases, All, if◌then◌else◌,
}
use dymension_rollapp_block.Common.Text.{Str, text, ◌===◌, eq_of_===, split}
use dymension_rollapp_block.Rollapp.{RollappInfo}
use dymension_rollapp_block.Hooks.Queries.{modules}
use dymension_rollapp_block.Pathname.Menu.{check_selected, third_piece}
use dymension_rollapp_block.Layout.Sider.{MenuItem, menu_items, menu_link, sider}

-- `check_selected` of the pieces of an address
abbrev selects : List Str → MenuItem → Bool
unfolding ◌===◌
selects pieces i =
    let path_to_check = b'/' ∷ third_piece pieces in
    if i.path === text "/" && length pieces == 2
    then true
    else path_to_check === i.path || any (λ p. p === path_to_check) i.selected_path

abbrev count : (List Str) → List MenuItem → ℕ
count pieces items = length (filter (selects pieces) items)

-- The pages that the items name, without the slash.
abbrev pages : List Str
unfolding modules
pages =
    []
    ∷ text "blocks"
    ∷ text "block"
    ∷ text "txs"
    ∷ text "tx"
    ∷ text "governors"
    ∷ text "proposals"
    ∷ text "proposal"
    ∷ text "params"
    ∷ text "params/auth"
    ∷ []

abbrev Differs : Str → Str → Type 0
Differs c k = ((c === k) ≡ false) × ((k === c) ≡ false)

===_comm : (s t : Str) → (s === t) ≡ (t === s)
unfolding ◌===◌
===_comm [] [] = refl
===_comm [] (d ∷ t) = refl
===_comm (c ∷ s) [] = refl
===_comm (c ∷ s) (d ∷ t) = ground (arith, ===_comm s t)

-- What holds of each of some texts, and of every text that is none of them, holds of all.
by_texts :
    (c : Str) (ks : List Str) (P : Str → Type 0) → All P ks → (All (Differs c) ks → P c) → P c
by_texts c [] P h k = k tt
by_texts c (t ∷ ks) P (h, hs) k = elim (Bool-cases (c === t)) [
  | inl same ↦ rw (eq_of_=== c t same) h
  | inr other ↦ by_texts c ks P hs (λ d. k ((other, rw (===_comm t c) other), d))
]

abbrev page_count : (pieces : List Str) → Bool → Str → ℕ
unfolding menu_items
page_count pieces open_ c = count ([] ∷ [] ∷ c ∷ pieces) (menu_items open_)

long : (pieces : List Str) (c : Str) → (length ([] ∷ [] ∷ c ∷ pieces) == 2) ≡ false
long pieces c = ground arith

other_page :
    (pieces : List Str) (open_ : Bool) (c : Str)
    → All (Differs c) pages
    → page_count pieces open_ c ≤ 1
unfolding menu_items modules ◌===◌
other_page pieces true c
      (
        (a1, a2),
        (
          (b1, b2),
          (
            (c1, c2),
            ((d1, d2), ((e1, e2), ((f1, f2), ((g1, g2), ((h1, h2), ((i1, i2), ((j1, j2), _))))))),
          ),
        ),
      ) =
    rw (long pieces c, a1, b1, c2, d1, e2, f1, g1, h2, i2, j1) (omega arith)
other_page pieces false c
      (
        (a1, a2),
        (
          (b1, b2),
          (
            (c1, c2),
            ((d1, d2), ((e1, e2), ((f1, f2), ((g1, g2), ((h1, h2), ((i1, i2), ((j1, j2), _))))))),
          ),
        ),
      ) =
    rw (long pieces c, a1, b1, c2, d1, e2, i2, j1) (omega arith)

one : 1 ≤ 1
one = omega arith

none_or_one : 0 ≤ 1
none_or_one = omega arith

named_page : (pieces : List Str) (open_ : Bool) → All (λ c. page_count pieces open_ c ≤ 1) pages
unfolding menu_items modules ◌===◌
named_page pieces true =
    rw (long pieces []) (one, (one, (one, (one, (one, (one, (one, (one, (one, (one, tt))))))))))
named_page pieces false =
    rw (long pieces []) (
      one,
      (one, (one, (one, (one, (none_or_one, (none_or_one, (none_or_one, (one, (one, tt))))))))),
    )

count_pieces : (pieces : List Str) (open_ : Bool) → count pieces (menu_items open_) ≤ 1
unfolding menu_items modules ◌===◌
count_pieces [] true = omega arith
count_pieces [] false = omega arith
count_pieces (a ∷ []) true = omega arith
count_pieces (a ∷ []) false = omega arith
count_pieces (a ∷ b ∷ []) true = omega arith
count_pieces (a ∷ b ∷ []) false = omega arith
count_pieces (a ∷ b ∷ c ∷ pieces) open_ =
    by_texts c pages (λ d. page_count pieces open_ d ≤ 1) (named_page pieces open_)
      (other_page pieces open_ c)

length-filter-map :
    (pathname : Str) (items : List MenuItem)
    → length (filter (λ l. l.is_selected) (map (menu_link pathname) items))
      ≡ count (split pathname b'/') items
unfolding menu_link check_selected
length-filter-map pathname [] = refl
length-filter-map pathname (i ∷ items) = elim (Bool-cases (selects (split pathname b'/') i)) [
  | inl h ↦ rw (h, length-filter-map pathname items) refl
  | inr h ↦ rw (h, length-filter-map pathname items) refl
]

-- Whatever the address is, and whether the group of the governance is open or closed, at most one
-- item of the menu is selected.
pub one_link_selected :
    (rollapp_infos : List RollappInfo) (selected_rollapp_info : Option RollappInfo) (pathname : Str)
    (governance_open : Bool)
    → length (
        filter
          (λ l. l.is_selected)
          (sider rollapp_infos selected_rollapp_info pathname governance_open).links)
      ≤ 1
unfolding sider
one_link_selected rollapp_infos selected_rollapp_info pathname governance_open =
    rw (length-filter-map pathname (menu_items governance_open))
      (count_pieces (split pathname b'/') governance_open)
