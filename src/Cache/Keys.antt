-- ===== src/Cache/Keys.antt =====
-- The keys of the cache tell the calls apart.
use dymension_rollapp_block.Common.{◌≡◌, ◌≢◌, refl, sym, ap, ◌∙◌, [], ◌∷◌, ◌++◌, All, arith}
use dymension_rollapp_block.Common.Text.{Str, text}
use dymension_rollapp_block.Cache.{cache_key}

-- A key without a bracket, as the application's keys are.
abbrev pub IsPlain : Str → Type 0
IsPlain key = All (λ c. c ≢ b'[') key

-- What is used of `fast-json-stable-stringify` on an array of arguments: the text begins with a
-- bracket, and tells the arguments apart.
pub record IsStringify {A : Type 0} (stringify : A → Str) : Type 0 where
  pub bracket : (a : A) → (rest : Str) × (stringify a ≡ b'[' ∷ rest)
  pub apart : (a b : A) → stringify a ≡ stringify b → a ≡ b

-- Texts without a bracket in front of the first bracket.
plain_prefix :
    (s t : Str) (u v : Str)
    → IsPlain s
    → IsPlain t
    → s ++ text "," ++ b'[' ∷ u ≡ t ++ text "," ++ b'[' ∷ v
    → (s ≡ t) × (u ≡ v)
plain_prefix [] [] u v p q e = (refl, ground arith)
plain_prefix [] (d ∷ []) u v p (d_plain, q) e = absurd (ground arith)
plain_prefix [] (d ∷ d' ∷ t) u v p (d_plain, (d_plain', q)) e = absurd (ground arith)
plain_prefix (c ∷ []) [] u v (c_plain, p) q e = absurd (ground arith)
plain_prefix (c ∷ c' ∷ s) [] u v (c_plain, (c_plain', p)) q e = absurd (ground arith)
plain_prefix (c ∷ s) (d ∷ t) u v (c_plain, p) (d_plain, q) e =
    let first : c ≡ d = ground arith in
    let (same, rest) = plain_prefix s t u v p q (ground arith) in (cc, rest)

-- Two calls share a key of the cache only where their own keys and their arguments are the same.
pub cache_key-apart :
    {A : Type 0} (stringify : A → Str) (key key' : Str) (a b : A)
    → IsStringify stringify
    → IsPlain key
    → IsPlain key'
    → cache_key stringify key a ≡ cache_key stringify key' b
    → (key ≡ key') × (a ≡ b)
unfolding cache_key
cache_key-apart stringify key key' a b h p q e =
    let (u, is_u) = h.bracket a in
    let (v, is_v) = h.bracket b in
    let joined : key ++ text "," ++ b'[' ∷ u ≡ key' ++ text "," ++ b'[' ∷ v =
      ap (λ x. key ++ text "," ++ x) (sym is_u) ∙ e ∙ ap (λ x. key' ++ text "," ++ x) is_v in
    let (same, rest) = plain_prefix key key' u v p q joined in
    (same, h.apart a b (is_u ∙ ap (λ x. b'[' ∷ x) rest ∙ sym is_v))
