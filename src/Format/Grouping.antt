-- ===== src/Format/Grouping.antt =====
-- The commas of a number.
use dymension_rollapp_block.Common.{
  ℕ, ◌≡◌, refl, sym, ap, ◌∙◌, Bool, true, not, List, [], ◌∷◌, ◌++◌, append_assoc, append-nil, ◌&&◌,
  ◌==◌, Bool-cases, inl, inr, all, arith,
}
use dymension_rollapp_block.Common.Text.{Str, split, split_from, keep, is_word}
use dymension_rollapp_block.Format.{
  grouped, group_digits, is_threes, join_dots, format_number_string,
}

abbrev pub no_comma : ℕ → Bool
no_comma c = not (c == b',')

keep-append : (p : ℕ → Bool) (s t : Str) → keep p (s ++ t) ≡ keep p s ++ keep p t
unfolding keep
keep-append p [] t = refl
keep-append p (c ∷ s) t = elim (Bool-cases (p c)) [
  | inl h ↦ rw h (ap (λ r. c ∷ r) (keep-append p s t))
  | inr h ↦ rw h (keep-append p s t)
]

keep-group_digits : (s : Str) → keep no_comma (group_digits s) ≡ keep no_comma s
unfolding keep group_digits
keep-group_digits [] = refl
keep-group_digits (c ∷ s) = elim (Bool-cases (is_word c && is_threes s)) [
  | inl h ↦ rw (h, keep-group_digits s) refl
  | inr h ↦ rw (h, keep-group_digits s) refl
]

keep-join_dots :
    (first : Str) (pieces : List Str)
    → keep no_comma (join_dots (group_digits first) pieces) ≡ keep no_comma (join_dots first pieces)
unfolding join_dots
keep-join_dots first [] = keep-group_digits first
keep-join_dots first (p ∷ pieces) =
    keep-append no_comma (group_digits first) (b'.' ∷ join_dots p pieces)
    ∙ ap (λ r. r ++ keep no_comma (b'.' ∷ join_dots p pieces)) (keep-group_digits first)
    ∙ sym (keep-append no_comma first (b'.' ∷ join_dots p pieces))

abbrev pub joined : List Str → Str
joined [] = []
joined (first ∷ pieces) = join_dots first pieces

pub some_piece : (cur s : Str) → (p : Str) × (ps : List Str) × (split_from b'.' cur s ≡ p ∷ ps)
unfolding split_from
some_piece cur [] = (cur, [], refl)
some_piece cur (c ∷ s) = elim (Bool-cases (c == b'.')) [
  | inl h ↦ rw h (cur, split_from b'.' [] s, refl)
  | inr h ↦ rw h (some_piece (cur ++ c ∷ []) s)
]

pub joined_behind :
    (cur s : Str)
    → joined (cur ∷ split_from b'.' [] s) ≡ cur ++ b'.' ∷ joined (split_from b'.' [] s)
unfolding join_dots
joined_behind cur s = let (p, ps, e) = some_piece [] s in rw e refl

pub joined-split_from : (s cur : Str) → joined (split_from b'.' cur s) ≡ cur ++ s
unfolding split_from join_dots
joined-split_from [] cur = sym (append-nil cur)
joined-split_from (c ∷ s) cur = elim (Bool-cases (c == b'.')) [
  | inl h ↦
      let dot : c ≡ b'.' = ground arith in
      rw h (
        joined_behind cur s
        ∙ ap (λ r. cur ++ b'.' ∷ r) (joined-split_from s [])
        ∙ ap (λ d. cur ++ d ∷ s) (sym dot))
  | inr h ↦ rw h (joined-split_from s (cur ++ c ∷ []) ∙ append_assoc cur (c ∷ []) s)
]

keep-grouped : (pieces : List Str) → keep no_comma (grouped pieces) ≡ keep no_comma (joined pieces)
keep-grouped [] = refl
keep-grouped (first ∷ pieces) = keep-join_dots first pieces

keep_self : (s : Str) → all no_comma s ≡ true → keep no_comma s ≡ s
unfolding keep
keep_self [] h = refl
keep_self (c ∷ s) h =
    let this : no_comma c ≡ true = ground arith in
    rw this (ap (λ r. c ∷ r) (keep_self s (ground arith)))

-- The text of a number without commas is got back from the text that is shown, by taking its commas
-- out: the grouping adds commas and changes nothing else.
pub shown_number_round_trip :
    (value : Str) → all no_comma value ≡ true → keep no_comma (format_number_string value) ≡ value
unfolding format_number_string split
shown_number_round_trip value h =
    keep-grouped (split_from b'.' [] value)
    ∙ ap (keep no_comma) (joined-split_from value [])
    ∙ keep_self value h
