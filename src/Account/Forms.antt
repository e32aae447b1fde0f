-- ===== src/Account/Forms.antt =====
-- The forms in which an address can be written.
use dymension_rollapp_block.Common.{
  ℕ, ◌*◌, ◌/◌, ◌%◌, ◌≡◌, ◌≢◌, map, refl, sym, ap, ◌∙◌, true, false, ◌&&◌, none, some, List, [], ◌∷◌,
  ◌++◌, all, length, arith,
}
use dymension_rollapp_block.Common.Text.{Str, text, ===_self, is_hex, starts_with}
use dymension_rollapp_block.Common.Dict.{get}
use dymension_rollapp_block.Common.Locale.{IsAscii, ascii_lower}
use dymension_rollapp_block.Pagination.{SearchParam}
use dymension_rollapp_block.Rollapp.{RollappInfo}
use dymension_rollapp_block.Address.{
  RollappAddress, Result, ok, ◌>>=◌, from_bech32, to_bech32, is_evm_address, is_hex_of,
}
use dymension_rollapp_block.Address.Hex.{IsBytes, to_hex_text, digit_round_trip, from-to_hex_text}
use dymension_rollapp_block.Address.RoundTrip.{bech32_round_trip, from_hex_behind_0x}
use dymension_rollapp_block.Account.{
  PageServices, AddressPage, Resolved, account_of, is_prefix, resolve_bech32, switch_prefix,
  resolve, show, address_page, is_evm_chain,
}

all_hex :
    (bytes : List ℕ)
    → IsBytes bytes
    → (all is_hex (to_hex_text bytes) ≡ true) × (length (to_hex_text bytes) ≡ 2 * length bytes)
unfolding to_hex_text
all_hex [] h = (refl, refl)
all_hex (b ∷ bytes) (small, h) =
    let (rest, size) = all_hex bytes h in
    (ground (arith, digit_round_trip (b / 16), digit_round_trip (b % 16)), omega arith)

hex_form-is_evm :
    (bytes : List ℕ)
    → IsBytes bytes
    → length bytes ≡ 20
    → is_evm_address (text "0x" ++ to_hex_text bytes) ≡ true
unfolding is_evm_address is_hex_of starts_with
hex_form-is_evm bytes h size =
    let (digits, long) = all_hex bytes h in
    let forty : length (to_hex_text bytes) ≡ 40 = omega arith in rw (digits, forty) refl

-- A prefix as the encoding leaves it.
abbrev pub IsLowerPrefix : Str → Type 0
IsLowerPrefix prefix = (prefix ≢ []) × IsAscii prefix × (map ascii_lower prefix ≡ prefix)

module _ (services : PageServices) (rollapp_info : RollappInfo) where
  open services use {locale, bech32}

  -- The Bech32 form is read as the address that it is printed from, where the prefix is in lower case.
  bech32_read :
      (a : RollappAddress) (s : Str)
      → IsBytes a.address
      → IsLowerPrefix a.prefix
      → to_bech32 bech32 a ≡ ok s
      → from_bech32 bech32 s none true ≡ ok a
  bech32_read a s bytes (some_prefix, ascii, lower) printed =
      (bech32_round_trip bech32 a s (text "a") true bytes some_prefix ascii printed (λ e. cc)).0
      ∙ ap (λ p. ok (record a { prefix = p })) lower

  resolve_account :
      (a : RollappAddress) (s : Str)
      → get rollapp_info.bech32 (text "addr") ≡ some a.prefix
      → IsBytes a.address
      → IsLowerPrefix a.prefix
      → to_bech32 bech32 a ≡ ok s
      → is_evm_address s ≡ false
      → resolve services rollapp_info s ≡ ok (account_of a)
  unfolding resolve resolve_bech32 switch_prefix is_prefix
  resolve_account a s addr bytes low printed other =
      let not_hex : (is_evm_chain services rollapp_info && is_evm_address s) ≡ false =
        ground (arith, other) in
      rw (not_hex, bech32_read a s bytes low printed, addr, ===_self a.prefix) refl

  resolve_hex :
      (a : RollappAddress)
      → rollapp_info.chain_type ≡ text "evm"
      → get rollapp_info.bech32 (text "addr") ≡ some a.prefix
      → IsBytes a.address
      → length a.address ≡ 20
      → resolve services rollapp_info (text "0x" ++ to_hex_text a.address) ≡ ok (account_of a)
  unfolding resolve
  resolve_hex a evm addr bytes size =
      let same =
        from_hex_behind_0x (to_hex_text a.address) a.prefix
        ∙ ap (λ bs. record { address = bs; prefix = a.prefix })
            (from-to_hex_text a.address bytes) in
      rw (evm, hex_form-is_evm a.address bytes size, addr, same) refl

  -- On an EVM chain whose prefix of accounts is of ASCII characters, not empty and without capitals,
  -- an account of 20 bytes with that prefix has one page, whether
  -- its address is written in Bech32 or as hexadecimal digits behind `0x`, the case of the letters
  -- being that of a checksum or any other: the page is asked for a text that is the form in lower
  -- case once it is put in lower case.
  pub forms_agree :
      (a : RollappAddress) (written hex s rollapp_path : Str)
      (tx_type page_size_param page_param : SearchParam)
      → rollapp_info.chain_type ≡ text "evm"
      → get rollapp_info.bech32 (text "addr") ≡ some a.prefix
      → IsBytes a.address
      → length a.address ≡ 20
      → IsLowerPrefix a.prefix
      → to_bech32 bech32 a ≡ ok s
      → is_evm_address s ≡ false
      → locale.to_lower_case written ≡ s
      → locale.to_lower_case hex ≡ text "0x" ++ to_hex_text a.address
      → (resolve services rollapp_info s ≡ ok (account_of a))
        × (address_page services rollapp_info rollapp_path hex tx_type page_size_param page_param
            ≡ address_page services rollapp_info rollapp_path written tx_type page_size_param
                page_param)
  unfolding address_page
  forms_agree a written hex s rollapp_path tx_type page_size_param page_param evm addr bytes size
        low printed other lower lower_hex =
      let read = resolve_account a s addr bytes low printed other in
      let read_hex = resolve_hex a evm addr bytes size in
      let page : Result Resolved → Result AddressPage =
        λ r. r >>= show services rollapp_info rollapp_path tx_type page_size_param page_param in
      (
        read,
        ap page (
            ap (resolve services rollapp_info) lower_hex
            ∙ read_hex
            ∙ sym read
            ∙ ap (resolve services rollapp_info) (sym lower)),
      )
