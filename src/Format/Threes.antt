-- ===== src/Format/Threes.antt =====
-- Where the commas of a number stand.
use dymension_rollapp_block.Common.{
  ℕ, suc, ◌+◌, ◌≤◌, ◌%◌, ◌≡◌, inl, inr, refl, sym, ap, ◌∙◌, true, false, ◌&&◌, List, [], ◌∷◌, ◌++◌,
  append_assoc, append-nil, all, length, ◌==◌, arith, Bool-cases, if◌then◌else◌,
}
use dymension_rollapp_block.Common.Text.{Str, split, split_from, is_digit, is_word}
use dymension_rollapp_block.Format.{
  grouped, group_digits, is_threes, join_dots, format_number_string,
}
use dymension_rollapp_block.Format.Grouping.{joined_behind, joined-split_from}

-- What stands behind the digits of a number: nothing, or a full stop and more.
abbrev pub IsFraction : Str → Type 0
IsFraction [] = Unit
IsFraction (c ∷ s) = c ≡ b'.'

all_digits :
    (s t : Str) → all is_digit s ≡ true → all is_digit t ≡ true → all is_digit (s ++ t) ≡ true
all_digits [] t h k = k
all_digits (c ∷ s) t h k = ground (arith, all_digits s t)

length_three : (s : Str) (x y z : ℕ) → length (s ++ x ∷ y ∷ z ∷ []) ≡ length s + 3
length_three [] x y z = refl
length_three (c ∷ s) x y z = ground (arith, length_three s x y z)

three_more : (n : ℕ) → (suc (n + 3) % 3 == 0) ≡ (suc n % 3 == 0)
three_more n = let same : suc (n + 3) % 3 ≡ suc n % 3 = omega arith in rw same refl

threes_more :
    (d : ℕ) (s : Str) (x y z : ℕ)
    → all is_digit (d ∷ s) ≡ true
    → all is_digit (x ∷ y ∷ z ∷ []) ≡ true
    → is_threes ((d ∷ s) ++ x ∷ y ∷ z ∷ []) ≡ is_threes (d ∷ s)
threes_more d s x y z h k =
    rw (all_digits (d ∷ s) (x ∷ y ∷ z ∷ []) h k, h, length_three s x y z) (three_more (length s))

word_of_digit : (c : ℕ) → is_digit c ≡ true → is_word c ≡ true
word_of_digit c h = ground arith

not_stop : (c : ℕ) → is_digit c ≡ true → (c == b'.') ≡ false
not_stop c h = ground arith

group_short : (s : Str) → length s ≤ 3 → group_digits s ≡ s
unfolding group_digits
group_short [] h = refl
group_short (a ∷ []) h = ground arith
group_short (a ∷ b ∷ []) h = ground arith
group_short (a ∷ b ∷ c ∷ []) h = ground arith
group_short (a ∷ b ∷ c ∷ d ∷ s) h = absurd (omega arith)

group_one :
    (c x y z : ℕ)
    → is_digit c ≡ true
    → all is_digit (x ∷ y ∷ z ∷ []) ≡ true
    → group_digits (c ∷ x ∷ y ∷ z ∷ []) ≡ c ∷ b',' ∷ x ∷ y ∷ z ∷ []
unfolding group_digits
group_one c x y z h k = rw (word_of_digit c h, group_short (x ∷ y ∷ z ∷ []) (omega arith), k) refl

placed :
    (c : ℕ) (s : Str)
    → group_digits (c ∷ s)
      ≡ (if is_word c && is_threes s then c ∷ b',' ∷ group_digits s else c ∷ group_digits s)
unfolding group_digits
placed c s = refl

-- Three more digits are a group of their own.
group_more :
    (c : ℕ) (s : Str) (x y z : ℕ)
    → all is_digit (c ∷ s) ≡ true
    → all is_digit (x ∷ y ∷ z ∷ []) ≡ true
    → group_digits ((c ∷ s) ++ x ∷ y ∷ z ∷ []) ≡ group_digits (c ∷ s) ++ b',' ∷ x ∷ y ∷ z ∷ []
group_more c [] x y z h k =
    rw (group_short (c ∷ []) (omega arith)) (group_one c x y z (ground arith) k)
group_more c (d ∷ s) x y z h k =
    let threes = threes_more d s x y z (ground arith) k in
    let more = group_more d s x y z (ground arith) k in
    elim (Bool-cases (is_word c && is_threes (d ∷ s))) [
      | inl with_comma ↦
          let before : group_digits (c ∷ d ∷ s) ≡ c ∷ b',' ∷ group_digits (d ∷ s) =
            placed c (d ∷ s) ∙ rw with_comma refl in
          placed c ((d ∷ s) ++ x ∷ y ∷ z ∷ [])
          ∙ rw (threes, with_comma, more) refl
          ∙ ap (λ g. g ++ b',' ∷ x ∷ y ∷ z ∷ []) (sym before)
      | inr without ↦
          let before : group_digits (c ∷ d ∷ s) ≡ c ∷ group_digits (d ∷ s) =
            placed c (d ∷ s) ∙ rw without refl in
          placed c ((d ∷ s) ++ x ∷ y ∷ z ∷ [])
          ∙ rw (threes, without, more) refl
          ∙ ap (λ g. g ++ b',' ∷ x ∷ y ∷ z ∷ []) (sym before)
    ]

split_number :
    (s rest cur : Str)
    → all is_digit s ≡ true
    → IsFraction rest
    → (pieces : List Str) × (split_from b'.' cur (s ++ rest) ≡ (cur ++ s) ∷ pieces)
      × ((g : Str) → join_dots g pieces ≡ g ++ rest)
unfolding split_from join_dots
split_number [] [] cur h f = ([], ap (λ p. p ∷ []) (sym (append-nil cur)), λ g. sym (append-nil g))
split_number [] (c ∷ rest) cur h f = (
  split_from b'.' [] rest,
  rw f (ap (λ p. p ∷ split_from b'.' [] rest) (sym (append-nil cur))),
  λ g.
      joined_behind g rest
      ∙ ap (λ r. g ++ b'.' ∷ r) (joined-split_from rest [])
      ∙ ap (λ d. g ++ d ∷ rest) (sym f),
)
split_number (c ∷ s) rest cur h f =
    let (pieces, e, j) = split_number s rest (cur ++ c ∷ []) (ground arith) f in
    (
      pieces,
      rw (not_stop c (ground arith)) (e ∙ ap (λ p. p ∷ pieces) (append_assoc cur (c ∷ []) s)),
      j,
    )

-- Only the digits in front of the full stop are grouped.
format_digits :
    (s rest : Str)
    → all is_digit s ≡ true
    → IsFraction rest
    → format_number_string (s ++ rest) ≡ group_digits s ++ rest
unfolding format_number_string split
format_digits s rest h f =
    let (pieces, e, j) = split_number s rest [] h f in ap grouped e ∙ j (group_digits s)

-- A number of at most three digits, with a full stop and more behind it or nothing, is shown as it is.
-- Three more digits at the end of those in front of the full stop are a group of their own: they stand
-- behind a comma, and that behind what is shown of the digits before.
pub commas_placed :
    (short : Str) (c : ℕ) (s rest : Str) (x y z : ℕ)
    → all is_digit short ≡ true
    → length short ≤ 3
    → all is_digit (c ∷ s) ≡ true
    → all is_digit (x ∷ y ∷ z ∷ []) ≡ true
    → IsFraction rest
    → (format_number_string (short ++ rest) ≡ short ++ rest)
      × (format_number_string (((c ∷ s) ++ x ∷ y ∷ z ∷ []) ++ rest)
          ≡ format_number_string (c ∷ s) ++ b',' ∷ x ∷ y ∷ z ∷ rest)
commas_placed short c s rest x y z d l h k f =
    let group : Str = x ∷ y ∷ z ∷ [] in
    let whole : format_number_string (c ∷ s) ≡ group_digits (c ∷ s) =
      ap format_number_string (sym (append-nil (c ∷ s)))
      ∙ format_digits (c ∷ s) [] h tt
      ∙ append-nil (group_digits (c ∷ s)) in
    (
      format_digits short rest d f ∙ ap (λ g. g ++ rest) (group_short short l),
      format_digits ((c ∷ s) ++ group) rest (all_digits (c ∷ s) group h k) f
          ∙ ap (λ g. g ++ rest) (group_more c s x y z h k)
          ∙ append_assoc (group_digits (c ∷ s)) (b',' ∷ group) rest
          ∙ ap (λ g. g ++ b',' ∷ x ∷ y ∷ z ∷ rest) (sym whole),
    )
