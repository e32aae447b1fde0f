-- ===== src/Common/Text.antt =====
-- Strings as the lists of their UTF-16 code units, and what the program uses of the language's
-- string operations and character classes.
use Prim.Native.Char.{code}
use Prim.Native.String.{String}
use Prim.Native.Nat.{ℕ}
use mathlib.Core.Path.{◌≡◌, refl}
use mathlib.Core.Logic.{◌↔◌}
use mathlib.Core.Bool.{Bool, true, false, ◌&&◌, ◌||◌}
use mathlib.Core.List.{List, [], ◌∷◌, ◌++◌, reverse}
use native.Mathlib.Omega.{arith}
use dymension_rollapp_block.Common.Tests.{leb, ◌==◌, if◌then◌else◌}
use dymension_rollapp_block.Common.Lists.{drop}

abbrev pub Str : Type 0
Str = List ℕ

-- An ASCII literal.
abbrev pub text : String → Str
text String.[] = []
text (String.◌∷◌ c s) = code c ∷ text s

-- `===` on strings
infix 50 ◌===◌
unfoldable pub ◌===◌ : Str → Str → Bool
[] === [] = true
[] === (d ∷ t) = false
(c ∷ s) === [] = false
(c ∷ s) === (d ∷ t) = c == d && s === t

pub eq_of_=== : (s t : Str) → (s === t) ≡ true → s ≡ t
unfolding ◌===◌
eq_of_=== [] [] h = refl
eq_of_=== [] (d ∷ t) h = cc
eq_of_=== (c ∷ s) [] h = cc
eq_of_=== (c ∷ s) (d ∷ t) h = ground (arith, eq_of_=== s t)

pub ===_self : (s : Str) → (s === s) ≡ true
unfolding ◌===◌
===_self [] = refl
===_self (c ∷ s) = ground (arith, ===_self s)

pub ===_iff : (s t : Str) → ((s === t) ≡ true) ↔ (s ≡ t)
===_iff s t = (eq_of_=== s t, λ e. rw e (===_self t))

-- `s.startsWith(p)`
unfoldable pub starts_with : Str → Str → Bool
starts_with s [] = true
starts_with [] (d ∷ p) = false
starts_with (c ∷ s) (d ∷ p) = c == d && starts_with s p

-- `s.includes(p)`
unfoldable pub includes : Str → Str → Bool
unfolding starts_with
includes [] p = starts_with [] p
includes (c ∷ s) p = starts_with (c ∷ s) p || includes s p

-- `s.substring(i)` and `s.substring(0, i)`, at an index that is not negative
abbrev pub substring : Str → ℕ → Str
substring s i = drop i s

-- `s.split(sep)` at one character: the pieces, of which there is at least one.
unfoldable pub split_from : ℕ → Str → Str → List Str
split_from sep cur [] = cur ∷ []
split_from sep cur (c ∷ s) =
    let closed = cur ∷ split_from sep [] s in
    let longer = split_from sep (cur ++ c ∷ []) s in if c == sep then closed else longer

unfoldable pub split : Str → ℕ → List Str
unfolding split_from
split s sep = split_from sep [] s

-- `s.replace(/[^…]/g, '')`: the characters of a class, in order
unfoldable pub keep : (ℕ → Bool) → Str → Str
keep p [] = []
keep p (c ∷ s) = if p c then c ∷ keep p s else keep p s

-- What is left of a text behind its leading characters of a class.
unfoldable pub skip : (ℕ → Bool) → Str → Str
skip p [] = []
skip p (c ∷ s) = if p c then skip p s else c ∷ s

-- The leading characters of a class.
unfoldable pub span : (ℕ → Bool) → Str → Str
span p [] = []
span p (c ∷ s) = if p c then c ∷ span p s else []

-- The classes of the regular expressions: `\d`, `[\da-fA-F]`, `[a-z]`, `[A-Z]`, `\s`.
abbrev pub is_digit : ℕ → Bool
is_digit c = leb b'0' c && leb c b'9'

abbrev pub is_lower : ℕ → Bool
is_lower c = leb b'a' c && leb c b'z'

abbrev pub is_upper : ℕ → Bool
is_upper c = leb b'A' c && leb c b'Z'

abbrev pub is_hex : ℕ → Bool
is_hex c = is_digit c || leb b'a' c && leb c b'f' || leb b'A' c && leb c b'F'

abbrev pub is_word : ℕ → Bool
is_word c = is_digit c || is_lower c || is_upper c || c == b'_'

unfoldable pub is_space : ℕ → Bool
is_space c =
    leb 9 c && leb c 13
    || c == 32
    || c == 0xa0
    || c == 0x1680
    || leb 0x2000 c && leb c 0x200a
    || c == 0x2028
    || c == 0x2029
    || c == 0x202f
    || c == 0x205f
    || c == 0x3000
    || c == 0xfeff

-- `s.trim()`
unfoldable pub trim : Str → Str
unfolding skip is_space
trim s = reverse (skip is_space (reverse (skip is_space s)))
