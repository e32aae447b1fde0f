-- ===== src/Transaction/Cts.antt =====
-- The text of a message with links to its addresses: `translateCts` of web-app/src/utils/transaction.ts.
pub mod Links
use dymension_rollapp_block.Common.{
  ℕ, zero, suc, ◌-◌, Bool, true, false, not, ◌||◌, Option, none, some, List, [], ◌∷◌, ◌++◌, length,
  ◌==◌, if◌then◌else◌,
}
use dymension_rollapp_block.Common.Text.{Str, text, span, skip, is_digit, is_lower, is_space}

-- A part of the result: a text, or a link to what the code takes for an address.
pub data Part : Type 0 where
  plain_text : Str → Part
  link : Str → Part

-- What is left of a text behind a literal, and behind one character of a class.
unfoldable pub eat : Str → Str → Option Str
eat [] s = some s
eat (d ∷ literal) [] = none
eat (d ∷ literal) (c ∷ s) = let rest = eat literal s in if c == d then rest else none

abbrev pub eat_one : (ℕ → Bool) → Str → Option Str
eat_one p [] = none
eat_one p (c ∷ s) = if p c then some s else none

-- `.`: any character but those that end a line
abbrev pub is_any : ℕ → Bool
is_any c = not (c == 10 || c == 13 || c == 0x2028 || c == 0x2029)

abbrev pub is_address_char : ℕ → Bool
is_address_char c = is_lower c || is_digit c

infixl 5 ◌>>=◌
abbrev pub ◌>>=◌ : {A B : Type 0} → Option A → (A → Option B) → Option B
none >>= f = none
some a >>= f = f a

-- `+` takes one character at least.
abbrev pub some_address : Str → Option Str
some_address [] = none
some_address (c ∷ s) = some (c ∷ s)

-- `{\[{\s.\[address\].\[([a-z\d]+)\].\s}]}` at the start of a text: the captured address, and what is
-- left behind the match. No bracket is in the class of the address, so the match is the only one.
unfoldable pub match_cts : Str → Option (Str × Str)
unfolding eat span skip is_space
match_cts s = do
  a ← eat (text "{[{") s
  b ← eat_one is_space a
  c ← eat_one is_any b
  d ← eat (text "[address]") c
  e ← eat_one is_any d
  f ← eat (text "[") e
  address ← some_address (span is_address_char f)
  g ← eat (text "]") (skip is_address_char f)
  h ← eat_one is_any g
  i ← eat_one is_space h
  rest ← eat (text "}]}") i
  some (address, rest)

-- The texts between the matches, and the addresses.
pub data Pieces : Type 0 where
  last : Str → Pieces
  piece : (before address : Str) → Pieces → Pieces

-- The scan from a text on that is read as far as `cur`; the next `n` characters are those of a match.
unfoldable pub pieces_from : (n : ℕ) (cur : Str) → Str → Pieces
unfolding match_cts
pieces_from n cur [] = last cur
pieces_from (suc n) cur (c ∷ s) = pieces_from n cur s
pieces_from zero cur (c ∷ s) =
    let longer = pieces_from zero (cur ++ c ∷ []) s in
    elim (match_cts (c ∷ s)) [
      | none ↦ longer
      | some (address, rest) ↦ piece cur address (pieces_from (length s - length rest) [] s)
    ]

-- `ctm.split(ctsRegex)`: the captured addresses stand between the texts.
abbrev pub splitted : Pieces → List Str
splitted (last s) = s ∷ []
splitted (piece before address rest) = before ∷ address ∷ splitted rest

-- The callback of `map`: a part at an odd index is returned as it is, and the others are links.
unfoldable pub convert_from : (odd : Bool) → List Str → List Part
convert_from odd [] = []
convert_from odd (part ∷ parts) =
    let rest = convert_from (not odd) parts in
    if odd then plain_text part ∷ rest else link part ∷ rest

-- A list of one part is the text; an empty first part is taken out.
unfoldable pub convert : (ctm : Str) → List Str → List Part
unfolding convert_from
convert ctm [] = plain_text ctm ∷ []
convert ctm (s ∷ []) = plain_text ctm ∷ []
convert ctm ([] ∷ s ∷ parts) = convert_from false (s ∷ parts)
convert ctm ((c ∷ first) ∷ s ∷ parts) = convert_from false ((c ∷ first) ∷ s ∷ parts)

unfoldable pub translate_cts : Str → List Part
unfolding pieces_from convert
translate_cts ctm = convert ctm (splitted (pieces_from zero [] ctm))
