-- ===== src/Table/Validators.antt =====
-- web-app/src/components/client/address/ValidatorList.tsx: the governors, by their tokens. `percent`
-- stands for the division of the package `big.js` and the text of its result.
use Prim.Native.Nat.{Ordering}
use dymension_rollapp_block.Common.{
  ℕ, ◌+◌, ◌*◌, ◌≤◌, ◌≡◌, refl, Bool, true, false, ◌&&◌, Option, none, some, List, [], ◌∷◌, any,
  length, ltb, ◌==◌, if◌then◌else◌, arith, Member, any_of,
}
use dymension_rollapp_block.Common.Text.{Str}
use dymension_rollapp_block.Common.Sort.{sort}
use dymension_rollapp_block.Pagination.{SearchParam, get_page_and_page_size_from_string_param}
use dymension_rollapp_block.Table.{Table, slice}

-- A value of `ValidatorList` of consts/rpcResTypes.ts, with its key. Tokens that are empty are none.
pub record Validator : Type 0 where
  pub address : Str
  pub val_address : Str
  pub moniker : Str
  pub tokens : Option ℕ
  pub tokens_decimals : ℕ
  pub commission : Str

-- The sum, which begins again from 0 behind a validator without tokens.
unfoldable pub total_tokens : (acc : ℕ) → List Validator → ℕ
total_tokens acc [] = acc
total_tokens acc (v ∷ validators) = elim v.tokens [
  | none ↦ total_tokens 0 validators
  | some t ↦ total_tokens (t + acc) validators
]

abbrev pub is_missing : Validator → Bool
is_missing v = elim v.tokens [ none ↦ true | some t ↦ false ]

-- `compareNumberString(validators[b].tokens, validators[a].tokens)`, where both are there
abbrev pub compare_tokens : Option ℕ → Option ℕ → Ordering
compare_tokens (some a) (some b) = Prim.Native.Nat.compare b a
compare_tokens none b = Ordering.eq
compare_tokens (some a) none = Ordering.eq

unfoldable pub by_tokens : Validator → Validator → Ordering
by_tokens a b = compare_tokens a.tokens b.tokens

-- The sort compares each of two validators or more with another, and `new Big` throws on a text that
-- is no number: `none`.
unfoldable pub sorted_validators : List Validator → Option (List Validator)
unfolding by_tokens
sorted_validators validators =
    if ltb 1 (length validators) && any is_missing validators
    then none
    else some (sort by_tokens validators)

sorted_validators-none :
    (validators : List Validator) (v : Validator)
    → 2 ≤ length validators
    → Member v validators
    → v.tokens ≡ none
    → sorted_validators validators ≡ none
unfolding sorted_validators
sorted_validators-none validators v several m missing =
    let is : is_missing v ≡ true = rw missing refl in
    let found = any_of is_missing v validators m is in
    let more : ltb 1 (length validators) ≡ true = ground arith in rw (more, found) refl

pub record ValidatorRow : Type 0 where
  pub val_address : Str
  pub moniker : Str
  pub tokens : Option ℕ
  pub tokens_decimals : ℕ
  pub power : Str
  pub commission : Str

module _ (percent : (tokens total : ℕ) → Str) (hundred : Str) where
  -- A division by 0 throws.
  unfoldable pub power_of : (total : ℕ) → Option ℕ → Option Str
  power_of total none = some hundred
  power_of total (some tokens) = if total == 0 then none else some (percent tokens total)

  unfoldable pub validator_row : (total : ℕ) → Validator → Option ValidatorRow
  unfolding power_of
  validator_row total v = elim (power_of total v.tokens) [
    | none ↦ none
    | some power ↦ some (record {
      val_address = v.val_address;
      moniker = v.moniker;
      tokens = v.tokens;
      tokens_decimals = v.tokens_decimals;
      power = power;
      commission = v.commission;
    })
  ]

  unfoldable pub validator_rows : (total : ℕ) → List Validator → Option (List ValidatorRow)
  unfolding validator_row
  validator_rows total [] = some []
  validator_rows total (v ∷ validators) =
      let rest = validator_rows total validators in
      elim (validator_row total v) [
        | none ↦ none
        | some row ↦ elim rest [ none ↦ none | some rows ↦ some (row ∷ rows) ]
      ]

  -- `none` is an exception in the rendering.
  unfoldable pub validator_list :
      List Validator
      → (page_size_param page_param : SearchParam) (loading : Bool) → Option (Table ValidatorRow)
  unfolding sorted_validators validator_rows total_tokens slice
  validator_list validators page_size_param page_param loading =
      let (page_size, page) =
        get_page_and_page_size_from_string_param page_size_param page_param
          (some (length validators)) in
      elim (sorted_validators validators) [
        | none ↦ none
        | some sorted ↦
            elim (validator_rows (total_tokens 0 validators)
              (slice sorted (page * page_size) ((page + 1) * page_size))) [
                | none ↦ none
                | some rows ↦ some (record {
                  body = rows;
                  total = some (length validators);
                  page = page;
                  page_size = page_size;
                  loading = loading;
                  loading_items = none;
                  enable_pagination = true;
                })
              ]
      ]

  -- Of two validators or more, one without tokens makes the page throw, though the sum of the tokens
  -- and the share of a validator make allowance for it.
  pub missing_tokens_throw :
      (validators : List Validator) (v : Validator) (page_size_param page_param : SearchParam)
      (loading : Bool)
      → 2 ≤ length validators
      → Member v validators
      → v.tokens ≡ none
      → validator_list validators page_size_param page_param loading ≡ none
  unfolding validator_list
  missing_tokens_throw validators v page_size_param page_param loading several m missing =
      let throws = sorted_validators-none validators v several m missing in
      rw (throws, validator_list) refl
