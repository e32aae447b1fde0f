-- ===== src/Table/Slices.antt =====
-- The rows of a page are those of the whole list at their places.
use dymension_rollapp_block.Common.{
  ℕ, zero, suc, ◌+◌, ◌-◌, ◌*◌, ◌/◌, ◌%◌, ◌≤◌, ◌<◌, ◌≡◌, refl, ap, ◌∙◌, List, [], ◌∷◌, take, drop,
  get_elem?, arith,
}
use dymension_rollapp_block.Table.{slice}

get_elem?-drop :
    {A : Type 0} (n j : ℕ) (xs : List A) → get_elem? (drop n xs) j ≡ get_elem? xs (n + j)
get_elem?-drop zero j xs = ap (λ k. get_elem? xs k) (omega arith)
get_elem?-drop (suc n) j [] = refl
get_elem?-drop (suc n) j (x ∷ xs) =
    let shifted : suc (n + j) ≡ suc n + j = omega arith in
    get_elem?-drop n j xs ∙ ap (λ k. get_elem? (x ∷ xs) k) shifted

get_elem?-take :
    {A : Type 0} (n j : ℕ) (xs : List A) → j < n → get_elem? (take n xs) j ≡ get_elem? xs j
get_elem?-take zero j xs h = absurd (omega arith)
get_elem?-take (suc n) j [] h = refl
get_elem?-take (suc n) zero (x ∷ xs) h = refl
get_elem?-take (suc n) (suc j) (x ∷ xs) h = get_elem?-take n j xs (omega arith)

pub get_elem?-slice :
    {A : Type 0} (xs : List A) (from to j : ℕ)
    → from + j < to
    → get_elem? (slice xs from to) j ≡ get_elem? xs (from + j)
unfolding slice
get_elem?-slice xs from to j h =
    get_elem?-take (to - from) j (drop from xs) (omega arith) ∙ get_elem?-drop from j xs

-- The element at `i` stands on the page `i / size`, at the place `i % size`.
pub slice_of_page :
    {A : Type 0} (xs : List A) (size i : ℕ)
    → 1 ≤ size
    → get_elem? (slice xs (i / size * size) ((i / size + 1) * size)) (i % size) ≡ get_elem? xs i
slice_of_page xs size i h =
    get_elem?-slice xs (i / size * size) ((i / size + 1) * size) (i % size) (grind arith)
    ∙ ap (λ k. get_elem? xs k) (grind arith)

pub place :
    {A : Type 0} (xs : List A) (size i : ℕ)
    → 1 ≤ size
    → get_elem? (take size (drop (i / size * size) xs)) (i % size) ≡ get_elem? xs i
place xs size i h =
    get_elem?-take size (i % size) (drop (i / size * size) xs) (grind arith)
    ∙ get_elem?-drop (i / size * size) (i % size) xs
    ∙ ap (λ k. get_elem? xs k) (grind arith)
