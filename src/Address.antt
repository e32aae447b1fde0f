-- ===== src/Address.antt =====
-- web-app/src/utils/address.ts and the patterns of web-app/src/consts/address.ts: the kinds of
-- address, and an address as bytes with a prefix. The packages `bech32` and `@ethersproject/address`
-- are parameters.
pub mod Hex
pub mod RoundTrip
use dymension_rollapp_block.Common.{
  ℕ, ◌+◌, ◌*◌, ◌≡◌, ◌≢◌, map, Bool, true, false, not, ◌&&◌, Option, none, some, List, [], ◌∷◌, ◌++◌,
  ◌==◌, leb, all, any, length, drop, take, ◌-◌, if◌then◌else◌,
}
use dymension_rollapp_block.Common.Text.{
  Str, text, ◌===◌, starts_with, is_lower, is_hex, skip, span,
}
use dymension_rollapp_block.Common.Locale.{IsAscii, ascii_lower}
use dymension_rollapp_block.Address.Hex.{to_hex_text, from_hex_text, IsBytes}

-- `(0x)?` in front of a pattern that cannot begin with `0x`
abbrev pub behind_0x : Str → Str
behind_0x s = if starts_with s (text "0x") then drop 2 s else s

-- `/^(0x)?[\da-fA-F]{n}$/`
unfoldable pub is_hex_of : ℕ → Str → Bool
unfolding starts_with
is_hex_of n s = length (behind_0x s) == n && all is_hex (behind_0x s)

unfoldable pub is_evm_address : Str → Bool
unfolding is_hex_of
is_evm_address value = is_hex_of 40 value

unfoldable pub is_tx_hash : Str → Bool
unfolding is_hex_of
is_tx_hash value = is_hex_of 64 value

-- `[qpzry9x8gf2tvdw0s3jn54khce6mua7l]`
unfoldable pub is_bech32_char : ℕ → Bool
is_bech32_char c = any (λ d. c == d) (text "qpzry9x8gf2tvdw0s3jn54khce6mua7l")

-- `/^[a-z]+1[…]{38,}$/`, behind the letters
separated : Str → Bool
unfolding is_bech32_char
separated [] = false
separated (c ∷ s) = c == b'1' && leb 38 (length s) && all is_bech32_char s

unfoldable pub is_cosmos_address : Str → Bool
unfolding separated span skip
is_cosmos_address value = not (span is_lower value === []) && separated (skip is_lower value)

-- What the explorer uses of the package `bech32`: `decode` and `encode` throw on a bad text or
-- prefix (`none`). What is encoded is decoded again; the encoding puts the prefix, which is of ASCII
-- characters, in lower case, and a text without a prefix is not decoded.
pub record Bech32 : Type 0 where
  pub decode : Str → Option (Str × List ℕ)
  pub encode : Str → List ℕ → Option Str
  pub to_words : List ℕ → List ℕ
  pub from_words : List ℕ → Option (List ℕ)
  pub from-to_words : (bytes : List ℕ) → IsBytes bytes → from_words (to_words bytes) ≡ some bytes
  pub decode-encode :
      (prefix : Str) (words : List ℕ) (s : Str)
      → prefix ≢ []
      → IsAscii prefix
      → encode prefix words ≡ some s
      → decode s ≡ some (map ascii_lower prefix, words)

pub record RollappAddress : Type 0 where
  pub address : List ℕ
  pub prefix : Str

pub data Result (A : Type 0) : Type 0 where
  ok : A → Result A
  throw : Str → Result A

-- What an exception of a package says is not modelled.
abbrev pub package_error : Str
package_error = text "package error"

infixl 5 ◌>>=◌
abbrev pub ◌>>=◌ : {A B : Type 0} → Result A → (A → Result B) → Result B
ok a >>= f = f a
throw e >>= f = throw e

abbrev pub lift : {A : Type 0} → Option A → Result A
lift none = throw package_error
lift (some a) = ok a

-- `prefix || decoded.prefix`, where no prefix is given or an empty one
abbrev pub or_decoded : Option Str → Str → Str
or_decoded none decoded = decoded
or_decoded (some []) decoded = decoded
or_decoded (some (c ∷ s)) decoded = c ∷ s

-- `throwErr && prefix && decoded.prefix !== prefix`
unfoldable pub is_unmatched : Bool → Option Str → Str → Bool
is_unmatched throw_err none decoded = false
is_unmatched throw_err (some []) decoded = false
is_unmatched throw_err (some (c ∷ s)) decoded = throw_err && not (decoded === c ∷ s)

module _ (b : Bech32) where
  unfoldable pub from_bech32 : Str → Option Str → (throw_err : Bool) → Result RollappAddress
  unfolding is_unmatched
  from_bech32 bech32_address prefix throw_err = do
    (decoded_prefix, words) ← lift (b.decode bech32_address)
    if is_unmatched throw_err prefix decoded_prefix then throw (text "Unmatched prefix") else do
      bytes ← lift (b.from_words words)
      ok (record { address = bytes; prefix = or_decoded prefix decoded_prefix })

  unfoldable pub to_bech32 : RollappAddress → Result Str
  to_bech32 a = lift (b.encode a.prefix (b.to_words a.address))

-- `hex.replace('0x', '')`: the first `0x`, wherever it stands.
unfoldable pub remove_0x : Str → Str
unfolding starts_with
remove_0x [] = []
remove_0x (c ∷ s) = if starts_with (c ∷ s) (text "0x") then drop 1 s else c ∷ remove_0x s

unfoldable pub from_hex : Str → Str → RollappAddress
unfolding remove_0x from_hex_text
from_hex hex prefix = record { address = from_hex_text (remove_0x hex); prefix = prefix }

-- `toHex(checksum)`; `get_address` is `getAddress` of the package, which throws on a bad address.
unfoldable pub to_hex : (Str → Option Str) → RollappAddress → (checksum : Bool) → Result Str
unfolding to_hex_text
to_hex get_address a checksum =
    let hex = to_hex_text a.address in
    if length hex == 0
    then throw (text "Empty address")
    else if checksum
    then lift (get_address hex)
    else ok (text "0x" ++ hex)

-- `getShortAddress`; a negative start of `substring` is 0.
abbrev pub last_six : Str → Str
last_six s = drop (length s - 6) s

unfoldable pub get_short_address : Str → Str
get_short_address address = take 17 address ++ text "..." ++ last_six address
