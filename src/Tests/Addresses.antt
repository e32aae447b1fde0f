-- ===== src/Tests/Addresses.antt =====
-- Pages, addresses of pages, and addresses of accounts.
use dymension_rollapp_block.Common.{
  ℕ, ◌≤◌, ◌<◌, ◌/◌, ◌≡◌, ◌↔◌, ◌⊎◌, refl, ap, true, false, not, ◌&&◌, Option, none, some, List, [],
  ◌∷◌, ◌++◌, map, length, take, drop, arith, All, if◌then◌else◌,
}
use dymension_rollapp_block.Common.Text.{Str, text, ◌===◌}
use dymension_rollapp_block.Common.Decimal.{to_string, is_digits, parse_int}
use dymension_rollapp_block.Common.Locale.{ascii, ascii_lower}
use dymension_rollapp_block.Pagination.{
  string, num, get_page_and_page_size_from_string_param, get_offset_from_page_and_page_size,
}
use dymension_rollapp_block.Pagination.Bounds.{pagination_bounds}
use dymension_rollapp_block.Pagination.Links.{row_reachable, Shows}
use dymension_rollapp_block.Pathname.{get_rollapp_path_from_pathname}
use dymension_rollapp_block.Rollapp.{get_rollapp_path_by_name}
use dymension_rollapp_block.Rollapp.Paths.{IsPathChar, rollapp_path_round_trip}
use dymension_rollapp_block.Address.{
  Bech32, RollappAddress, ok, throw, from_bech32, to_bech32, from_hex, to_hex,
}
use dymension_rollapp_block.Address.RoundTrip.{hex_round_trip, bech32_round_trip}

pagination_bounds_example :
    (1 ≤ 100)
    × (100 ≤ 100)
    × ((get_offset_from_page_and_page_size (num 2) 100 < 250)
        ⊎ (◌≡◌ {A = ℕ} 250 0 × (get_offset_from_page_and_page_size (num 2) 100 ≡ 0)))
unfolding get_page_and_page_size_from_string_param is_digits parse_int
pagination_bounds_example =
    pagination_bounds (string (text "999")) (string (text "7")) 250 100 2 refl

row_reachable_example :
    (get_page_and_page_size_from_string_param
        (string (to_string 20))
        (string (to_string (47 / 20)))
        (some 61)
      ≡ (20, 47 / 20))
    × (Shows 2 20 47 ↔ (2 ≡ 47 / 20))
row_reachable_example = row_reachable 20 47 61 2 (omega arith) (omega arith) (omega arith)

rollapp_path_round_trip_example :
    (seg : Str) × (get_rollapp_path_by_name ascii (text "Nim & Co") ≡ b'/' ∷ seg)
    × All IsPathChar seg
    × (get_rollapp_path_from_pathname
          (get_rollapp_path_by_name ascii (text "Nim & Co") ++ text "/blocks")
        ≡ some (get_rollapp_path_by_name ascii (text "Nim & Co")))
rollapp_path_round_trip_example =
    rollapp_path_round_trip ascii (text "Nim & Co") (text "/blocks") refl

abbrev account : RollappAddress
account = record { address = 18 ∷ 255 ∷ []; prefix = text "dym" }

hex_round_trip_example :
    ((account.address ≡ []) × (to_hex (λ s. some s) account false ≡ throw (text "Empty address")))
    ⊎ ((s : Str) × (to_hex (λ s. some s) account false ≡ ok s)
        × (from_hex s account.prefix ≡ account))
hex_round_trip_example = hex_round_trip (λ s. some s) account (ground arith)

-- An encoding that writes the length of the prefix first, and the prefix in lower case.
taken : (s t : Str) → take (length s) (s ++ t) ≡ s
taken [] t = refl
taken (c ∷ s) t = ap (λ r. c ∷ r) (taken s t)

left : (s t : Str) → drop (length s) (s ++ t) ≡ t
left [] t = refl
left (c ∷ s) t = left s t

unfoldable pub decode : Str → Option (Str × List ℕ)
decode [] = none
decode (n ∷ s) = some (take n s, drop n s)

unfoldable pub encode : Str → List ℕ → Option Str
encode prefix words = let lower = map ascii_lower prefix in some (length lower ∷ lower ++ words)

pub decode-encode :
    (prefix : Str) (words : List ℕ) (s : Str)
    → encode prefix words ≡ some s
    → decode s ≡ some (map ascii_lower prefix, words)
unfolding decode encode
decode-encode prefix words s e =
    let lower = map ascii_lower prefix in
    let same : length lower ∷ lower ++ words ≡ s = ground arith in
    rw (← same, decode, taken lower words, left lower words) refl

abbrev pub plain : Bech32
plain = record {
  decode = decode;
  encode = encode;
  to_words = λ bytes. bytes;
  from_words = λ words. some words;
  from-to_words = λ bytes h. refl;
  decode-encode = λ prefix words s some_prefix ascii e. decode-encode prefix words s e;
}

bech32_round_trip_example :
    (from_bech32 plain (3 ∷ text "dym" ++ 18 ∷ 255 ∷ []) none true
      ≡ ok (record account { prefix = map ascii_lower account.prefix }))
    × (from_bech32 plain (3 ∷ text "dym" ++ 18 ∷ 255 ∷ []) (some (text "nim")) true ≡ (
        if true && not (map ascii_lower account.prefix === text "nim")
        then throw (text "Unmatched prefix")
        else ok (record account { prefix = text "nim" })))
unfolding to_bech32 encode
bech32_round_trip_example =
    bech32_round_trip plain account (3 ∷ text "dym" ++ 18 ∷ 255 ∷ []) (text "nim") true
      (ground arith) (ground arith) (ground arith) refl (ground arith)
