-- ===== src/Search/Laws.antt =====
-- What the searches find.
use dymension_rollapp_block.Common.{
  ℕ, ◌≤◌, ◌≡◌, ◌↔◌, refl, sym, ap, ◌∙◌, true, false, Option, none, some, List, [], ◌∷◌, ◌++◌,
  filter, append-nil, all, Member, leb, leb→le, le→leb, arith, member-filter_iff,
}
use mathlib.Core.Path.{subst}
use dymension_rollapp_block.Common.Text.{Str, text, starts_with, is_digit, is_hex, span}
use dymension_rollapp_block.Common.Decimal.{
  is_digits, parse_int, to_string, parse_int-to_string, is_digits-to_string,
}
use dymension_rollapp_block.Pagination.{Number, num}
use dymension_rollapp_block.Rollapp.{RollappInfo}
use dymension_rollapp_block.Search.Block.{
  BlockSearchResult, is_block_no, some_hex, found, parse_int_prefix, get_block_search_result,
  search_number,
}

-- Digits in front of a character that is none.
span_digits :
    (s t : Str) → all is_digit s ≡ true → span is_digit t ≡ [] → span is_digit (s ++ t) ≡ s
unfolding span
span_digits [] t h e = e
span_digits (c ∷ s) t h e = ground (arith, span_digits s t)

all_hex_digits :
    (s t : Str) → all is_digit s ≡ true → all is_hex t ≡ true → all is_hex (s ++ t) ≡ true
all_hex_digits [] t h k = k
all_hex_digits (c ∷ s) t h k = ground (arith, all_hex_digits s t)

-- Digits, and hexadecimal digits behind them, neither begin with `0x` nor with `0X`.
no_marker :
    (s t : Str)
    → is_digits s ≡ true
    → all is_hex t ≡ true
    → (starts_with (s ++ t) (text "0x") ≡ false) × (starts_with (s ++ t) (text "0X") ≡ false)
unfolding starts_with is_digits
no_marker [] t digits hex = (ground arith, ground arith)
no_marker (c ∷ []) [] digits hex = (ground arith, ground arith)
no_marker (c ∷ []) (e ∷ t) digits hex = (ground arith, ground arith)
no_marker (c ∷ d ∷ s) t digits hex = (ground arith, ground arith)

some_hex-append : (s t : Str) → is_digits s ≡ true → all is_hex t ≡ true → some_hex (s ++ t) ≡ true
unfolding is_digits
some_hex-append [] t digits hex = ground arith
some_hex-append (c ∷ s) t digits hex = all_hex_digits (c ∷ s) t digits hex

-- What stands before a text that is searched.
is_block_no-append :
    (s t : Str) → is_digits s ≡ true → all is_hex t ≡ true → is_block_no (s ++ t) ≡ true
unfolding is_block_no is_digits
is_block_no-append [] t digits hex = ground arith
is_block_no-append (c ∷ s) t digits hex =
    ground (arith, no_marker (c ∷ s) t digits hex, some_hex-append (c ∷ s) t digits hex)

parse_int_prefix-append :
    (s t : Str)
    → is_digits s ≡ true
    → all is_hex t ≡ true
    → span is_digit t ≡ []
    → parse_int_prefix (s ++ t) ≡ num (parse_int s)
unfolding parse_int_prefix is_digits
parse_int_prefix-append [] t digits hex stops = ground arith
parse_int_prefix-append (c ∷ s) t digits hex stops =
    ground (arith, no_marker (c ∷ s) t digits hex, span_digits (c ∷ s) t digits stops)

searched :
    (s : Str) (number : Number) (infos : List RollappInfo)
    → is_block_no s ≡ true
    → parse_int_prefix s ≡ number
    → get_block_search_result s infos ≡ search_number number infos
unfolding get_block_search_result
searched s number infos h e = rw h (ap (λ n. search_number n infos) e)

digits_searched :
    (s t : Str) (infos : List RollappInfo)
    → is_digits s ≡ true
    → all is_hex t ≡ true
    → span is_digit t ≡ []
    → get_block_search_result (s ++ t) infos ≡ search_number (num (parse_int s)) infos
digits_searched s t infos digits hex stops =
    searched (s ++ t) (num (parse_int s)) infos (is_block_no-append s t digits hex)
      (parse_int_prefix-append s t digits hex stops)

abbrev pub listed : Option BlockSearchResult → List RollappInfo
listed none = []
listed (some r) = r.rollapp_infos

listed-found : (n : ℕ) (is : List RollappInfo) → listed (found n is) ≡ is
listed-found n [] = refl
listed-found n (i ∷ is) = refl

-- Where decimal digits are followed by hexadecimal ones that do not begin with a decimal digit, the
-- whole is searched as the decimal digits alone are: what follows them is passed over.
pub hex_block_search :
    (s t : Str) (infos : List RollappInfo)
    → is_digits s ≡ true
    → all is_hex t ≡ true
    → span is_digit t ≡ []
    → get_block_search_result (s ++ t) infos ≡ get_block_search_result s infos
unfolding span
hex_block_search s t infos digits hex stops =
    digits_searched s t infos digits hex stops
    ∙ sym (digits_searched s [] infos digits refl refl)
    ∙ ap (λ x. get_block_search_result x infos) (append-nil s)

-- The search for the decimal numeral of a number finds exactly the given RollApps whose latest
-- indexed block is not before that number.
pub block_search_iff :
    (n : ℕ) (infos : List RollappInfo) (i : RollappInfo)
    → Member i (listed (get_block_search_result (to_string n) infos))
      ↔ Member i infos × (n ≤ i.latest_indexed_block)
unfolding span parse_int
block_search_iff n infos i =
    let printed = is_digits-to_string n in
    let at_or_after = λ (j : RollappInfo). leb n j.latest_indexed_block in
    let e =
      ap (λ x. get_block_search_result x infos) (sym (append-nil (to_string n)))
      ∙ digits_searched (to_string n) [] infos printed refl refl
      ∙ ap (λ m. search_number (num m) infos) (parse_int-to_string n) in
    let shown = ap listed e ∙ listed-found n (filter at_or_after infos) in
    let kept = member-filter_iff at_or_after i infos in
    (
      λ m. let (k, h) = kept.0 (subst (λ xs. Member i xs) shown m) in (k, leb→le n _ h),
      λ (m, h). subst (λ xs. Member i xs) (sym shown) (kept.1 (m, le→leb n _ h)),
    )
