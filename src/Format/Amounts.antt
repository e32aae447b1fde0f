-- ===== src/Format/Amounts.antt =====
-- The amounts of the RPC server: a number and the name of a coin.
use mathlib.Core.List.{reverse, reverse-append, reverse-cons, reverse-reverse}
use dymension_rollapp_block.Common.{
  ℕ, ◌≡◌, refl, ap, ◌∙◌, Bool, true, false, none, some, [], ◌∷◌, ◌++◌, append_assoc, all, arith,
}
use dymension_rollapp_block.Common.Text.{Str, span, is_digit, is_lower}
use dymension_rollapp_block.Format.{or_zero, some_text, get_amount, get_denom}

-- The leading characters of a class, in front of a text that begins with another.
span_front :
    (p : ℕ → Bool) (s : Str) (c : ℕ) (t : Str)
    → all p s ≡ true
    → p c ≡ false
    → span p (s ++ c ∷ t) ≡ s
unfolding span
span_front p [] c t h k = rw k refl
span_front p (d ∷ s) c t h k =
    let this : p d ≡ true = ground arith in
    rw this (ap (λ r. d ∷ r) (span_front p s c t (ground arith) k))

pub all-append :
    (p : ℕ → Bool) (s t : Str) → all p s ≡ true → all p t ≡ true → all p (s ++ t) ≡ true
all-append p [] t h k = k
all-append p (c ∷ s) t h k = ground (arith, all-append p s t)

all-reverse : (p : ℕ → Bool) (s : Str) → all p s ≡ true → all p (reverse s) ≡ true
all-reverse p [] h = refl
all-reverse p (c ∷ s) h =
    rw (reverse-cons c s)
      (all-append p (reverse s) (c ∷ []) (all-reverse p s (ground arith)) (ground arith))

-- The digit at the end of an amount.
last_of :
    (n : ℕ) (amount : Str)
    → all is_digit (n ∷ amount) ≡ true
    → (front : Str) × (m : ℕ) × (n ∷ amount ≡ front ++ m ∷ []) × (is_digit m ≡ true)
last_of n [] h = ([], n, refl, ground arith)
last_of n (m ∷ amount) h =
    let (front, k, e, d) = last_of m amount (ground arith) in (n ∷ front, k, ap (λ r. n ∷ r) e, d)

trailing :
    (s : Str) (c : ℕ) (t : Str)
    → is_lower c ≡ false
    → all is_lower t ≡ true
    → reverse (span is_lower (reverse (s ++ c ∷ t))) ≡ t
trailing s c t other lower =
    let flipped : reverse (s ++ c ∷ t) ≡ reverse t ++ c ∷ reverse s =
      reverse-append s (c ∷ t)
      ∙ ap (λ r. r ++ reverse s) (reverse-cons c t)
      ∙ append_assoc (reverse t) (c ∷ []) (reverse s) in
    let spanned =
      span_front is_lower (reverse t) c (reverse s) (all-reverse is_lower t lower) other in
    ap (λ r. reverse (span is_lower r)) flipped ∙ ap reverse spanned ∙ reverse-reverse t

-- An amount that is printed as a number and a coin whose name is lower-case letters is read as the
-- two. Of a coin whose name ends in anything else, as a hash in upper case, no name is read.
pub rpc_amount_read :
    (n : ℕ) (amount : Str) (d : ℕ) (denom path : Str) (c : ℕ)
    → all is_digit (n ∷ amount) ≡ true
    → all is_lower (d ∷ denom) ≡ true
    → is_lower c ≡ false
    → (get_amount ((n ∷ amount) ++ d ∷ denom) ≡ n ∷ amount)
      × (get_denom ((n ∷ amount) ++ d ∷ denom) ≡ some (d ∷ denom))
      × (get_denom ((n ∷ amount) ++ path ++ c ∷ []) ≡ none)
unfolding get_amount get_denom
rpc_amount_read n amount d denom path c digits lower other =
    let (front, m, split_last, digit) = last_of n amount digits in
    let not_lower : is_lower m ≡ false = ground arith in
    let not_digit : is_digit d ≡ false = ground arith in
    (
      ap or_zero (span_front is_digit (n ∷ amount) d denom digits not_digit),
      ap (λ r. some_text (reverse (span is_lower (reverse (r ++ d ∷ denom))))) split_last
          ∙ ap (λ r. some_text (reverse (span is_lower (reverse r))))
              (append_assoc front (m ∷ []) (d ∷ denom))
          ∙ ap some_text (trailing front m (d ∷ denom) not_lower lower),
      ap some_text (trailing ((n ∷ amount) ++ path) c [] other refl),
    )
