-- ===== src/Pathname/Segments.antt =====
-- How the operations on a page's address fit together.
use dymension_rollapp_block.Common.{
  true, some, List, [], ◌∷◌, ◌++◌, ◌==◌, ◌≡◌, ◌≢◌, ◌↔◌, refl, arith, inl, inr, Bool-cases, All,
  append-nil, append_assoc,
}
use dymension_rollapp_block.Common.Text.{Str, text, eq_of_===, ===_self, split_from}
use dymension_rollapp_block.Pathname.{
  segment, after_segment, get_rollapp_path_from_pathname, is_not_found_path, second_piece,
  get_new_path_by_rollapp,
}

-- A text without a slash.
abbrev pub NoSlash : Str → Type 0
NoSlash s = All (λ c. c ≢ b'/') s

-- What can stand behind a segment: nothing, or a slash and more.
abbrev pub IsBehind : Str → Type 0
IsBehind [] = Unit
IsBehind (c ∷ s) = c ≡ b'/'

pub segment-append : (s t : Str) → NoSlash s → IsBehind t → segment (s ++ t) ≡ s
unfolding segment
segment-append [] [] h b = refl
segment-append [] (c ∷ t) h b = ground arith
segment-append (c ∷ s) t h b = ground (arith, segment-append s t)

pub after_segment-append : (s t : Str) → NoSlash s → IsBehind t → after_segment (s ++ t) ≡ t
unfolding after_segment
after_segment-append [] [] h b = refl
after_segment-append [] (c ∷ t) h b = ground arith
after_segment-append (c ∷ s) t h b = ground (arith, after_segment-append s t)

pub segment-NoSlash : (s : Str) → NoSlash (segment s)
unfolding segment
segment-NoSlash [] = tt
segment-NoSlash (c ∷ s) = ground (arith, segment-NoSlash s)

segment-after_segment : (s : Str) → segment s ++ after_segment s ≡ s
unfolding segment after_segment
segment-after_segment [] = refl
segment-after_segment (c ∷ s) = ground (arith, segment-after_segment s)

pub first_piece :
    (cur s : Str) → (pieces : List Str) × (split_from b'/' cur s ≡ (cur ++ segment s) ∷ pieces)
unfolding split_from segment
first_piece cur [] = ([], rw append-nil)
first_piece cur (c ∷ s) = elim (Bool-cases (c == b'/')) [
  | inl e ↦ (split_from b'/' [] s, ground (arith, append-nil cur))
  | inr e ↦
      let (pieces, q) = first_piece (cur ++ c ∷ []) s in
      (pieces, ground (arith, q, append_assoc cur (c ∷ []) (segment s)))
]

second_piece_of_ne :
    (seg : Str) (pieces : List Str) (new_path : Str)
    → seg ≢ []
    → second_piece ([] ∷ seg ∷ pieces) ++ new_path ≡ (b'/' ∷ seg) ++ new_path
second_piece_of_ne [] pieces new_path ne = absurd (ne refl)
second_piece_of_ne (c ∷ seg) pieces new_path ne = refl

new_path_of_segment :
    (s new_path : Str)
    → segment s ≢ []
    → get_new_path_by_rollapp (b'/' ∷ s) new_path ≡ (b'/' ∷ segment s) ++ new_path
unfolding get_new_path_by_rollapp split_from
new_path_of_segment s new_path ne =
    let (pieces, e) = first_piece [] s in rw e (second_piece_of_ne (segment s) pieces new_path ne)

-- The segment of an address names the RollApp, and a link to another page of the explorer keeps it.
pub rollapp_path_kept :
    (seg rest new_path : Str)
    → seg ≢ []
    → NoSlash seg
    → IsBehind rest
    → IsBehind new_path
    → (get_rollapp_path_from_pathname (b'/' ∷ seg ++ rest) ≡ some (b'/' ∷ seg))
      × (get_new_path_by_rollapp (b'/' ∷ seg ++ rest) new_path ≡ (b'/' ∷ seg) ++ new_path)
      × (get_rollapp_path_from_pathname (get_new_path_by_rollapp (b'/' ∷ seg ++ rest) new_path)
          ≡ some (b'/' ∷ seg))
unfolding get_rollapp_path_from_pathname get_new_path_by_rollapp
rollapp_path_kept seg rest new_path ne h b k =
    let same : segment (seg ++ rest) ≡ seg = segment-append seg rest h b in
    let moved : get_new_path_by_rollapp (b'/' ∷ seg ++ rest) new_path ≡ (b'/' ∷ seg) ++ new_path =
      rw (new_path_of_segment (seg ++ rest) new_path (rw same ne), same) in
    (rw same, moved, rw (moved, segment-append seg new_path h k))

not_found_sound :
    (p : Str)
    → is_not_found_path p ≡ true
    → (seg : Str) × NoSlash seg × (p ≡ b'/' ∷ seg ++ text "/not-found")
unfolding is_not_found_path
not_found_sound [] e = cc
not_found_sound (c ∷ s) e =
    let slash : c ≡ b'/' = ground arith in
    let behind : after_segment s ≡ text "/not-found" =
      eq_of_=== (after_segment s) (text "/not-found") (ground arith) in
    (segment s, segment-NoSlash s, cc (slash, behind, segment-after_segment s))

-- An address is a not-found page exactly where it is one segment before `/not-found`.
pub is_not_found_path_iff :
    (p : Str)
    → (is_not_found_path p ≡ true)
      ↔ ((seg : Str) × NoSlash seg × (p ≡ b'/' ∷ seg ++ text "/not-found"))
unfolding is_not_found_path
is_not_found_path_iff p = (
  not_found_sound p,
  λ (seg, h, e). rw (e, after_segment-append seg _ h refl) (===_self (text "/not-found")),
)
