-- ===== src/Block/Numbers.antt =====
-- The number of a block that two parts of its page read in the address.
use dymension_rollapp_block.Common.{
  ℕ, ◌≡◌, refl, ap, Bool, true, false, ◌||◌, [], ◌∷◌, ◌++◌, all, ◌==◌, arith,
}
use dymension_rollapp_block.Common.Text.{Str, text, starts_with, is_digit, is_hex, span, skip}
use dymension_rollapp_block.Common.Decimal.{is_digits, parse_int}
use dymension_rollapp_block.Pagination.{Number, nan, num}
use dymension_rollapp_block.Search.Block.{is_block_no, parse_int_prefix, read_hex, some_hex}
use dymension_rollapp_block.Format.Amounts.{all-append}
use dymension_rollapp_block.Block.{block_page, block_shown, to_number}

-- No base is given in front.
abbrev NoPrefix : Str → Type 0
NoPrefix s =
    (starts_with s (text "0x") ≡ false)
    × (starts_with s (text "0X") ≡ false)
    × (starts_with s (text "0b") ≡ false)
    × (starts_with s (text "0B") ≡ false)

-- A hexadecimal letter that makes no exponent and no base.
abbrev pub IsLetter : ℕ → Type 0
IsLetter c =
    (is_hex c ≡ true)
    × (is_digit c ≡ false)
    × ((c == b'b' || c == b'B' || c == b'e' || c == b'E') ≡ false)

digits-NoPrefix : (s : Str) → all is_digit s ≡ true → NoPrefix s
unfolding starts_with
digits-NoPrefix [] h = ground arith
digits-NoPrefix (d ∷ []) h = ground arith
digits-NoPrefix (d ∷ c ∷ s) h = ground arith

letter-NoPrefix :
    (s : Str) (c : ℕ) (t : Str) → all is_digit s ≡ true → IsLetter c → NoPrefix (s ++ c ∷ t)
unfolding starts_with
letter-NoPrefix [] c t h l = ground arith
letter-NoPrefix (d ∷ []) c t h l = ground arith
letter-NoPrefix (d ∷ e ∷ s) c t h l = ground arith

span_digits :
    (s : Str) (c : ℕ) (t : Str)
    → all is_digit s ≡ true
    → is_digit c ≡ false
    → (span is_digit (s ++ c ∷ t) ≡ s) × (skip is_digit (s ++ c ∷ t) ≡ c ∷ t)
unfolding span skip
span_digits [] c t h k = (rw k refl, rw k refl)
span_digits (d ∷ s) c t h k =
    let this : is_digit d ≡ true = ground arith in
    let (same, rest) = span_digits s c t (ground arith) k in
    (rw this (ap (λ r. d ∷ r) same), rw this rest)

digits_only : (s : Str) → all is_digit s ≡ true → (span is_digit s ≡ s) × (skip is_digit s ≡ [])
unfolding span skip
digits_only [] h = (refl, refl)
digits_only (d ∷ s) h =
    let this : is_digit d ≡ true = ground arith in
    let (same, rest) = digits_only s (ground arith) in
    (rw this (ap (λ r. d ∷ r) same), rw this rest)

span_hex : (s : Str) → all is_hex s ≡ true → span is_hex s ≡ s
unfolding span
span_hex [] h = refl
span_hex (d ∷ s) h =
    let this : is_hex d ≡ true = ground arith in
    rw this (ap (λ r. d ∷ r) (span_hex s (ground arith)))

digits_read :
    (d : ℕ) (s : Str)
    → all is_digit (d ∷ s) ≡ true
    → (parse_int_prefix (d ∷ s) ≡ num (parse_int (d ∷ s)))
      × (to_number (d ∷ s) ≡ num (parse_int (d ∷ s)))
unfolding parse_int_prefix to_number
digits_read d s h =
    let (x, X, b, B) = digits-NoPrefix (d ∷ s) h in
    let (same, rest) = digits_only (d ∷ s) h in
    (rw (x, X, same) refl, rw (x, X, b, B, same, rest) refl)

hex_read :
    (d : ℕ) (s : Str)
    → all is_hex (d ∷ s) ≡ true
    → (parse_int_prefix (text "0x" ++ d ∷ s) ≡ num (read_hex 0 (d ∷ s)))
      × (to_number (text "0x" ++ d ∷ s) ≡ num (read_hex 0 (d ∷ s)))
unfolding parse_int_prefix to_number
hex_read d s h = (rw (span_hex (d ∷ s) h) refl, rw h refl)

-- The leading digits, as a number.
abbrev pub leading : Str → Number
leading [] = nan
leading (d ∷ s) = num (parse_int (d ∷ s))

letter_read :
    (s : Str) (c : ℕ) (t : Str)
    → all is_digit s ≡ true
    → IsLetter c
    → (parse_int_prefix (s ++ c ∷ t) ≡ leading s) × (to_number (s ++ c ∷ t) ≡ nan)
unfolding parse_int_prefix to_number
letter_read [] c t h l =
    let (x, X, b, B) = letter-NoPrefix [] c t h l in
    let (same, rest) = span_digits [] c t h l.1 in
    (rw (x, X, same) refl, rw (x, X, b, B, same) refl)
letter_read (d ∷ s) c t h l =
    let (x, X, b, B) = letter-NoPrefix (d ∷ s) c t h l in
    let (same, rest) = span_digits (d ∷ s) c t h l.1 in
    let no_exponent : (c == b'e' || c == b'E') ≡ false = ground arith in
    (rw (x, X, same) refl, rw (x, X, b, B, same, rest, no_exponent) refl)

digits_hex : (s : Str) → all is_digit s ≡ true → all is_hex s ≡ true
digits_hex [] h = refl
digits_hex (d ∷ s) h = ground (arith, digits_hex s)

hex_of_nonempty : (s : Str) (c : ℕ) (t : Str) → some_hex (s ++ c ∷ t) ≡ all is_hex (s ++ c ∷ t)
hex_of_nonempty [] c t = refl
hex_of_nonempty (d ∷ s) c t = refl

or_true : (b : Bool) → (b || true) ≡ true
or_true true = refl
or_true false = refl

page_of :
    (rollapp_path s : Str) (a b : Number)
    → is_block_no s ≡ true
    → parse_int_prefix s ≡ a
    → to_number s ≡ b
    → block_page rollapp_path s ≡ block_shown a b
unfolding block_page
page_of rollapp_path s a b i p n = rw (i, p, n) refl

letter_block_no :
    (s : Str) (c : ℕ) (t : Str)
    → all is_digit s ≡ true
    → IsLetter c
    → all is_hex t ≡ true
    → is_block_no (s ++ c ∷ t) ≡ true
unfolding is_block_no
letter_block_no s c t h l k =
    let (x, X, b, B) = letter-NoPrefix s c t h l in
    let all_hex : all is_hex (s ++ c ∷ t) ≡ true =
      all-append is_hex s (c ∷ t) (digits_hex s h) (ground arith) in
    rw (x, hex_of_nonempty s c t, all_hex) (or_true (is_digits (s ++ c ∷ t)))

digits_block_no : (d : ℕ) (s : Str) → all is_digit (d ∷ s) ≡ true → is_block_no (d ∷ s) ≡ true
unfolding is_block_no is_digits
digits_block_no d s h = rw h refl

hex_block_no :
    (d : ℕ) (s : Str) → all is_hex (d ∷ s) ≡ true → is_block_no (text "0x" ++ d ∷ s) ≡ true
unfolding is_block_no
hex_block_no d s h = rw h (or_true (is_digits (text "0x" ++ d ∷ s)))

-- The page of a block reads a text of digits, and `0x` with hexadecimal digits, as the same number
-- for the detail of the block and for the list of its transactions.
pub block_numbers_agree :
    (rollapp_path : Str) (d : ℕ) (s : Str) (e : ℕ) (t : Str)
    → all is_digit (d ∷ s) ≡ true
    → all is_hex (e ∷ t) ≡ true
    → (block_page rollapp_path (d ∷ s)
        ≡ block_shown (num (parse_int (d ∷ s))) (num (parse_int (d ∷ s))))
      × (block_page rollapp_path (text "0x" ++ e ∷ t)
          ≡ block_shown (num (read_hex 0 (e ∷ t))) (num (read_hex 0 (e ∷ t))))
block_numbers_agree rollapp_path d s e t h k =
    let (p, n) = digits_read d s h in
    let (q, m) = hex_read e t k in
    (
      page_of rollapp_path (d ∷ s) _ _ (digits_block_no d s h) p n,
      page_of rollapp_path (text "0x" ++ e ∷ t) _ _ (hex_block_no e t k) q m,
    )

-- Hexadecimal digits without `0x` are a block's number for the page too: where a letter other than
-- B and E stands behind the leading digits, the detail is that of the block of the leading digits
-- (of none, where there are none), and the list that of no block.
pub letter_block_misread :
    (rollapp_path s : Str) (c : ℕ) (t : Str)
    → all is_digit s ≡ true
    → IsLetter c
    → all is_hex t ≡ true
    → block_page rollapp_path (s ++ c ∷ t) ≡ block_shown (leading s) nan
letter_block_misread rollapp_path s c t h l k =
    let (p, n) = letter_read s c t h l in
    page_of rollapp_path (s ++ c ∷ t) _ _ (letter_block_no s c t h l k) p n
