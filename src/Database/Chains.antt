-- ===== src/Database/Chains.antt =====
-- web-app/src/services/db/chainInfo.ts: the queries on the chains, and the two routes that answer
-- with names: web-app/src/app/api/chain-info.
pub mod Active
use dymension_rollapp_block.Common.{
  ℕ, ◌<◌, ◌≡◌, Bool, true, false, not, ◌&&◌, ◌||◌, Option, none, some, List, [], ◌∷◌, map, any, ltb,
  leb, ◌==◌, if◌then◌else◌,
}
use dymension_rollapp_block.Common.Text.{Str, text, ◌===◌, includes}
use dymension_rollapp_block.Common.Dict.{Dict, get, set}
use dymension_rollapp_block.Common.Locale.{Locale, compare_units}
use dymension_rollapp_block.Common.Sort.{sort}
use dymension_rollapp_block.Pagination.{Number, nan, num}
use dymension_rollapp_block.Rollapp.{ChainInfo, get_rollapp_path_by_name}
use dymension_rollapp_block.Address.{Result, ok, throw}
use dymension_rollapp_block.Search.Block.{is_block_no, parse_int_prefix}
use dymension_rollapp_block.Database.{Query, plain_query, Model}

pub record ChainRow : Type 0 where
  pub chain_info : ChainInfo
  pub open chain_info use *
  pub postponed : Option Bool
  pub expiry_at_epoch : Option ℕ

-- `Prisma.chain_infoWhereInput`, as far as it is used: `both` is `AND`, or two fields of one object,
-- and `either` is `OR`.
pub data ChainWhere : Type 0 where
  postponed_is_null : ChainWhere
  postponed_is : Bool → ChainWhere
  expiry_is_null : ChainWhere
  expiry_gt : ℕ → ChainWhere
  chain_id_is : Str → ChainWhere
  chain_id_in : List Str → ChainWhere
  chain_id_contains : Str → ChainWhere
  name_contains : Str → ChainWhere
  chain_type_is : Str → ChainWhere
  bech32_is : (path value : Str) → ChainWhere
  latest_gte : Number → ChainWhere
  both : ChainWhere → ChainWhere → ChainWhere
  either : ChainWhere → ChainWhere → ChainWhere

abbrev holds : {A : Type 0} → (A → Bool) → Option A → Bool
holds p none = false
holds p (some a) = p a

abbrev is_null : {A : Type 0} → Option A → Bool
is_null none = true
is_null (some a) = false

-- What is documented of a condition: null is neither equal to a value nor greater. Of a comparison
-- with NaN nothing is documented, and `at_nan` stands for what it gives.
module _ (at_nan : ChainRow → Bool) where
  unfoldable pub meets : ChainWhere → ChainRow → Bool
  unfolding ◌===◌ get includes
  meets postponed_is_null c = is_null c.postponed
  meets (postponed_is b) c = holds (λ p. if b then p else not p) c.postponed
  meets expiry_is_null c = is_null c.expiry_at_epoch
  meets (expiry_gt now) c = holds (λ e. ltb now e) c.expiry_at_epoch
  meets (chain_id_is id) c = c.chain_id === id
  meets (chain_id_in ids) c = any (λ id. c.chain_id === id) ids
  meets (chain_id_contains s) c = includes c.chain_id s
  meets (name_contains s) c = includes c.name s
  meets (chain_type_is t) c = c.chain_type === t
  meets (bech32_is path value) c = holds (λ p. p === value) (get c.bech32 path)
  meets (latest_gte nan) c = at_nan c
  meets (latest_gte (num n)) c = leb n c.latest_indexed_block
  meets (both a b) c = meets a c && meets b c
  meets (either a b) c = meets a c || meets b c

pub record ChainModel : Type 0 where
  pub at_nan : ChainRow → Bool
  pub model : Model ChainRow ChainWhere (meets at_nan)
  pub open model use *

-- The two conditions of the array; `now` is `dayjs().unix()`.
unfoldable pub get_exclude_postponed_chain_condition : (now : ℕ) → ChainWhere
get_exclude_postponed_chain_condition now =
    both (either postponed_is_null (postponed_is false)) (either expiry_is_null (expiry_gt now))

-- The conditions of `OR`; that on the block is pushed where the text is a block number.
unfoldable pub field_conditions : Str → ChainWhere
unfolding is_block_no parse_int_prefix
field_conditions search_value =
    let names = ChainWhere.either (chain_id_contains search_value) (name_contains search_value) in
    if is_block_no search_value
    then either names (latest_gte (parse_int_prefix search_value))
    else names

abbrev pub first : {A : Type 0} → List A → Option A
first [] = none
first (x ∷ xs) = some x

module _ (chains : ChainModel) (now : ℕ) where
  open chains use {find_many}

  -- The columns of `select` are those of `ChainInfo`.
  unfoldable pub get_chain_infos : List ChainInfo
  unfolding get_exclude_postponed_chain_condition
  get_chain_infos =
      map (λ c. c.chain_info) (find_many (plain_query (get_exclude_postponed_chain_condition now)))

  -- `findUnique` of the chain id, with a further condition; the id is the key of the table.
  unfoldable pub get_chain_name_by_chain_id : Str → Option ChainRow
  unfolding get_exclude_postponed_chain_condition
  get_chain_name_by_chain_id chain_id = first (
      find_many
        (plain_query (both (get_exclude_postponed_chain_condition now) (chain_id_is chain_id))))

  -- Without chain ids, every chain that is not left out. `sort` is by code units.
  unfoldable pub get_chain_names_by_chain_ids : List Str → List ChainRow
  unfolding get_exclude_postponed_chain_condition compare_units
  get_chain_names_by_chain_ids [] =
      find_many (plain_query (get_exclude_postponed_chain_condition now))
  get_chain_names_by_chain_ids (id ∷ ids) = find_many (
      plain_query (
        both (get_exclude_postponed_chain_condition now)
          (chain_id_in (sort compare_units (id ∷ ids)))))

  unfoldable pub get_evm_chain_info : List ChainRow
  unfolding get_exclude_postponed_chain_condition
  get_evm_chain_info =
      find_many (
        plain_query (both (get_exclude_postponed_chain_condition now) (chain_type_is (text "evm"))))

  unfoldable pub get_chain_info_by_prefix : Str → List ChainRow
  unfolding get_exclude_postponed_chain_condition
  get_chain_info_by_prefix prefix = find_many (
      plain_query (
        both (get_exclude_postponed_chain_condition now)
          (either (bech32_is (text "addr") prefix) (bech32_is (text "val") prefix))))

  unfoldable pub search_chain_info_by_multiple_fields : Str → List ChainRow
  unfolding get_exclude_postponed_chain_condition field_conditions
  search_chain_info_by_multiple_fields search_value = find_many (
      plain_query
        (both (get_exclude_postponed_chain_condition now) (field_conditions search_value)))

-- The answer of the route: an object of the names by the chain ids.
unfoldable pub add_names : Dict Str → List ChainRow → Dict Str
unfolding set
add_names final [] = final
add_names final (c ∷ rows) = add_names (set final c.chain_id c.name) rows

unfoldable pub get_names : ChainModel → (now : ℕ) → (chain_ids : List Str) → Dict Str
unfolding add_names get_chain_names_by_chain_ids
get_names chains now chain_ids = add_names [] (get_chain_names_by_chain_ids chains now chain_ids)

-- web-app/src/app/by-chain-id/[chainId]/page.tsx: the address that the page redirects to.
unfoldable pub by_chain_id : Locale → ChainModel → (now : ℕ) → (chain_id : Str) → Result Str
unfolding get_chain_name_by_chain_id get_rollapp_path_by_name
by_chain_id locale chains now chain_id = elim (get_chain_name_by_chain_id chains now chain_id) [
  | none ↦ throw (text "RollApp not registered for Block Explorer")
  | some c ↦ ok (get_rollapp_path_by_name locale c.name)
]
