-- ===== src/Address/RoundTrip.antt =====
-- Printing an address and reading it back, in both of its forms.
use dymension_rollapp_block.Common.{
  ℕ, ◌≡◌, ◌≢◌, ◌⊎◌, inl, inr, refl, ap, ◌∙◌, Bool, false, not, ◌&&◌, Option, none, some, List, [],
  ◌∷◌, ◌++◌, map, arith, if◌then◌else◌,
}
use dymension_rollapp_block.Common.Text.{Str, text, ◌===◌, starts_with}
use dymension_rollapp_block.Common.Locale.{IsAscii, ascii_lower}
use dymension_rollapp_block.Address.Hex.{IsBytes, to_hex_text, from_hex_text, from-to_hex_text}
use dymension_rollapp_block.Address.{
  Bech32, RollappAddress, ok, throw, lift, from_bech32, to_bech32, is_unmatched, remove_0x,
  from_hex, to_hex,
}

abbrev of : List ℕ → Str → RollappAddress
of bytes prefix = record { address = bytes; prefix = prefix }

to_hex_some :
    (get_address : Str → Option Str) (b : ℕ) (bytes : List ℕ) (prefix : Str)
    → to_hex get_address (of (b ∷ bytes) prefix) false ≡ ok (text "0x" ++ to_hex_text (b ∷ bytes))
unfolding to_hex
to_hex_some get_address b bytes prefix = ground arith

pub from_hex_behind_0x :
    (s prefix : Str) → from_hex (text "0x" ++ s) prefix ≡ of (from_hex_text s) prefix
unfolding from_hex remove_0x starts_with
from_hex_behind_0x s prefix = refl

hex_cases :
    (get_address : Str → Option Str) (bytes : List ℕ) (prefix : Str)
    → IsBytes bytes
    → ((bytes ≡ []) × (to_hex get_address (of bytes prefix) false ≡ throw (text "Empty address")))
      ⊎ ((s : Str) × (to_hex get_address (of bytes prefix) false ≡ ok s)
          × (from_hex s prefix ≡ of bytes prefix))
unfolding to_hex
hex_cases get_address [] prefix h = inl (refl, refl)
hex_cases get_address (b ∷ bytes) prefix h = inr (
  text "0x" ++ to_hex_text (b ∷ bytes),
  to_hex_some get_address b bytes prefix,
  from_hex_behind_0x (to_hex_text (b ∷ bytes)) prefix
      ∙ ap (λ (bs : List ℕ). of bs prefix) (from-to_hex_text (b ∷ bytes) h),
)

-- An address of one byte or more has a hexadecimal form without checksum, which is read back as
-- the address. For the empty address the function throws.
pub hex_round_trip :
    (get_address : Str → Option Str) (a : RollappAddress)
    → IsBytes a.address
    → ((a.address ≡ []) × (to_hex get_address a false ≡ throw (text "Empty address")))
      ⊎ ((s : Str) × (to_hex get_address a false ≡ ok s) × (from_hex s a.prefix ≡ a))
hex_round_trip get_address a h = hex_cases get_address a.address a.prefix h

lift-eq-ok : {A : Type 0} (o : Option A) (a : A) → lift o ≡ ok a → o ≡ some a
lift-eq-ok none a e = cc
lift-eq-ok (some b) a e = cc

-- Reading a text whose decoding is known, with a prefix that is asked for.
read_with_prefix :
    (b : Bech32) (a : RollappAddress) (s prefix : Str) (words : List ℕ) (throw_err : Bool)
    → b.decode s ≡ some (a.prefix, words)
    → b.from_words words ≡ some a.address
    → prefix ≢ []
    → from_bech32 b s (some prefix) throw_err ≡ (
        if throw_err && not (a.prefix === prefix)
        then throw (text "Unmatched prefix")
        else ok (record a { prefix = prefix }))
unfolding from_bech32 is_unmatched
read_with_prefix b a s [] words throw_err d w ne = absurd (ne refl)
read_with_prefix b a s (c ∷ prefix) words throw_err d w ne = rw (d, from_bech32) (ground (arith, w))

-- The Bech32 form of an address whose prefix is of ASCII characters and not empty is read back as the
-- address, with its prefix in lower case. Where a prefix is asked for, it must be that one, or the
-- reading throws; where mismatches are let through, the bytes are given the prefix that is asked for.
pub bech32_round_trip :
    (b : Bech32) (a : RollappAddress) (s prefix : Str) (throw_err : Bool)
    → IsBytes a.address
    → a.prefix ≢ []
    → IsAscii a.prefix
    → to_bech32 b a ≡ ok s
    → prefix ≢ []
    → (from_bech32 b s none throw_err ≡ ok (record a { prefix = map ascii_lower a.prefix }))
      × (from_bech32 b s (some prefix) throw_err ≡ (
          if throw_err && not (map ascii_lower a.prefix === prefix)
          then throw (text "Unmatched prefix")
          else ok (record a { prefix = prefix })))
unfolding to_bech32 from_bech32 is_unmatched
bech32_round_trip b a s prefix throw_err h some_prefix ascii e ne =
    let words = b.to_words a.address in
    let decoded = b.decode-encode a.prefix words s some_prefix ascii (lift-eq-ok _ s e) in
    let bytes = b.from-to_words a.address h in
    (
      rw (decoded, from_bech32) (ground (arith, bytes)),
      read_with_prefix b (record a { prefix = map ascii_lower a.prefix }) s prefix words throw_err
          decoded bytes ne,
    )
