-- ===== src/Transaction/Data/Rows.antt =====
-- The rows of web-app/src/components/client/transaction/TransactionData/_Common.tsx, the links of
-- web-app/src/components/client/address/AddressLink.tsx, and the values of EVM transactions in
-- web-app/src/utils/transaction.ts and web-app/src/utils/number.ts.
use mathlib.Core.Path.{subst}
use dymension_rollapp_block.Common.{
  ℕ, ◌≡◌, arith, Option, none, some, List, [], ◌∷◌, ◌++◌, if◌then◌else◌,
}
use dymension_rollapp_block.Common.Text.{Str, text, starts_with}
use dymension_rollapp_block.Common.Locale.{Locale}
use dymension_rollapp_block.Common.Dict.{get}
use dymension_rollapp_block.Address.{Result, ok, throw, lift, ◌>>=◌}
use dymension_rollapp_block.Rpc.Service.{value, error_of}
use dymension_rollapp_block.Pathname.{get_new_path_by_rollapp}
use dymension_rollapp_block.Format.{format_number_string}
use dymension_rollapp_block.Transaction.Detail.{ContractMap, Erc20ContractInfo}
use dymension_rollapp_block.Transaction.Logs.{hex_to_dec}

-- The pieces of a value: text, the link of an address with its text, and a field for long texts.
pub data Piece : Type 0 where
  words : Str → Piece
  address_link : (address : Str) → (display : Option Str) → Piece
  text_field : Str → Piece

-- What stands below one another: a row, or empty lines.
pub data Element : Type 0 where
  row_item : (label : Str) → (value : List Piece) → Element
  line_breaks : Element

-- `display || address`
abbrev pub display_or : Option Str → Str → Str
display_or none address = address
display_or (some []) address = address
display_or (some (c ∷ s)) address = c ∷ s

-- `escan_url` is the environment's `DYM_ESCAN_URL`.
module _ (locale : Locale) (escan_url : Str) where
  -- The address and the text of a link: an address of the hub leads to its own explorer.
  unfoldable pub address_link_of : (pathname address : Str) → Option Str → Str × Str
  unfolding get_new_path_by_rollapp starts_with
  address_link_of pathname address display = (
    if starts_with (locale.to_lower_case address) (text "dym1")
        then escan_url ++ text "/address/" ++ address
        else get_new_path_by_rollapp pathname (text "/address" ++ text "/" ++ address),
    display_or display address,
  )

-- `contracts?.get(address)` of a contract whose information was got: an `{ error }` has no fields.
unfoldable pub info_of : Option ContractMap → Str → Option Erc20ContractInfo
unfolding get
info_of none address = none
info_of (some contracts) address = elim (get contracts address) [
  | none ↦ none
  | some (error_of e) ↦ none
  | some (value info) ↦ some info
]

unfoldable pub name_of : Option ContractMap → Str → Option Str
unfolding info_of
name_of contracts address = elim (info_of contracts address) [ none ↦ none | some i ↦ some i.name ]

-- `contracts?.get(address)?.symbol || ''`
unfoldable pub symbol_of : Option ContractMap → Str → Str
unfolding info_of
symbol_of contracts address = elim (info_of contracts address) [ none ↦ [] | some i ↦ i.symbol ]

-- What a property of undefined throws.
abbrev pub type_error : Str
type_error = text "TypeError"

-- `s!` that a method is called on
abbrev pub required : Option Str → Result Str
required none = throw type_error
required (some s) = ok s

-- What the texts of values take of `big.js`: `divideAmountByDecimals(amount, decimals).toString()`,
-- and `new Big(value).toString()`, which throws on a text that is no number.
pub record Arithmetic : Type 0 where
  pub divide : Str → ℕ → Str
  pub big : Str → Option Str

module _ (arithmetic : Arithmetic) where
  open arithmetic use {divide, big}

  unfoldable pub from_hex_string_to_ethereum_value : Str → Result Str
  unfolding hex_to_dec
  from_hex_string_to_ethereum_value hex_str = do
    amount ← lift (hex_to_dec hex_str)
    ok (divide amount 18)

  unfoldable pub from_hex_string_to_ethereum_gas_price_value : Str → Result Str
  unfolding hex_to_dec
  from_hex_string_to_ethereum_gas_price_value hex_str = do
    amount ← lift (hex_to_dec hex_str)
    ok (divide amount 9)

  unfoldable pub format_number : Str → Result Str
  unfolding format_number_string
  format_number amount = do number ← lift (big amount); ok (format_number_string number)

-- A property of the result, where there is one.
abbrev pub Ensures : {A : Type 0} → (A → Type 0) → Result A → Type 0
Ensures P (throw e) = Unit
Ensures P (ok a) = P a

pub >>=-Ensures :
    {A B : Type 0} (P : B → Type 0) (m : Result A) (f : A → Result B)
    → ((a : A) → Ensures P (f a))
    → Ensures P (m >>= f)
>>=-Ensures P (throw e) f h = tt
>>=-Ensures P (ok a) f h = h a

pub >>=-Ensures_ok :
    {A B : Type 0} (P : A → Type 0) (Q : B → Type 0) (m : Result A) (f : A → B)
    → ((a : A) → P a → Q (f a))
    → Ensures P m
    → Ensures Q (m >>= λ a. ok (f a))
>>=-Ensures_ok P Q (throw e) f k h = tt
>>=-Ensures_ok P Q (ok a) f k h = k a h

pub ensured : {A : Type 0} (P : A → Type 0) (m : Result A) (a : A) → m ≡ ok a → Ensures P m → P a
ensured P (throw e) a same h = absurd (ground arith)
ensured P (ok b) a same h = let e : b ≡ a = ground arith in subst P e h
