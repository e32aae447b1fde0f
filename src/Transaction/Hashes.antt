-- ===== src/Transaction/Hashes.antt =====
-- The forms of a transaction's hash in the database (utils/transaction.ts, actions/transaction.ts)
-- and on the screen.
use dymension_rollapp_block.Common.{
  ℕ, ◌-◌, ◌≡◌, refl, true, false, List, [], ◌∷◌, ◌++◌, map, All, take, drop, length, arith,
  if◌then◌else◌,
}
use dymension_rollapp_block.Common.Text.{Str, text, starts_with, is_hex}
use dymension_rollapp_block.Common.Locale.{Locale, IsAscii, ascii_lower, ascii_upper}

upper_of_lower_char : (c d : ℕ) → ascii_lower c ≡ ascii_lower d → ascii_upper c ≡ ascii_upper d
upper_of_lower_char c d e = ground arith

upper_of_lower :
    (s t : Str) → map ascii_lower s ≡ map ascii_lower t → map ascii_upper s ≡ map ascii_upper t
upper_of_lower [] [] e = refl
upper_of_lower [] (d ∷ t) e = absurd (cc)
upper_of_lower (c ∷ s) [] e = absurd (cc)
upper_of_lower (c ∷ s) (d ∷ t) e =
    let heads : ascii_lower c ≡ ascii_lower d = cc in
    let tails : map ascii_lower s ≡ map ascii_lower t = cc in
    cc (upper_of_lower_char c d heads, upper_of_lower s t tails)

module _ (locale : Locale) where
  open locale use {to_lower_case, to_upper_case, lower_ascii, upper_ascii}

  -- `txHash.startsWith('0x')`: the form of EVM chains, then the form of Cosmos chains.
  unfoldable pub get_tx_hashes_query_value : Str → List Str
  unfolding starts_with
  get_tx_hashes_query_value tx_hash =
      if starts_with tx_hash (text "0x")
      then to_lower_case tx_hash ∷ to_upper_case (drop 2 tx_hash) ∷ []
      else (text "0x" ++ to_lower_case tx_hash) ∷ to_upper_case tx_hash ∷ []

  abbrev pub IsHexText : Str → Type 0
  IsHexText s = All (λ c. is_hex c ≡ true) s

  hex-IsAscii : (s : Str) → IsHexText s → IsAscii s
  hex-IsAscii [] h = tt
  hex-IsAscii (c ∷ s) (hc, h) = (ground arith, hex-IsAscii s h)

  no_0x : (s : Str) → IsHexText s → starts_with s (text "0x") ≡ false
  unfolding starts_with
  no_0x [] h = refl
  no_0x (c ∷ []) h = ground arith
  no_0x (c ∷ d ∷ s) (hc, (hd, h)) = ground arith

  -- The hexadecimal digits of a hash name one pair of forms, with `0x` in front or not, and whatever
  -- the case of their letters is: `0x` and small letters, and capital letters.
  pub query_value_canonical :
      (s t : Str)
      → IsHexText s
      → map ascii_lower s ≡ map ascii_lower t
      → (get_tx_hashes_query_value s ≡ (text "0x" ++ map ascii_lower t) ∷ map ascii_upper t ∷ [])
        × (get_tx_hashes_query_value (text "0x" ++ s)
            ≡ (text "0x" ++ map ascii_lower t) ∷ map ascii_upper t ∷ [])
  unfolding get_tx_hashes_query_value
  query_value_canonical s t h e =
      let capital = upper_of_lower s t e in
      let low = lower_ascii s (hex-IsAscii s h) in
      let up = upper_ascii s (hex-IsAscii s h) in
      let prefixed : to_lower_case (text "0x" ++ s) ≡ text "0x" ++ map ascii_lower s =
        lower_ascii (text "0x" ++ s) (omega arith, (omega arith, hex-IsAscii s h)) in
      (rw (no_0x s h, low, up, e, capital), rw (prefixed, up, e, capital))

-- `getShortTxHash`
unfoldable pub get_short_tx_hash : Str → Str
get_short_tx_hash tx_hash = take 6 tx_hash ++ text "..." ++ drop (length tx_hash - 6) tx_hash
