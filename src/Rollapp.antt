-- ===== src/Rollapp.antt =====
-- web-app/src/utils/rollapp.ts, and the row of services/db/chainInfo.ts that it starts from: the
-- RollApps that the explorer knows, the address of each, and the favorites in the local storage.
pub mod Paths
pub mod Lookup
use dymension_rollapp_block.Common.{
  ℕ, Bool, true, false, ◌||◌, Option, none, some, List, [], ◌∷◌, map, ◌==◌, find, if◌then◌else◌,
}
use dymension_rollapp_block.Common.Text.{Str, ◌===◌, keep, trim, is_digit, is_lower, is_space}
use dymension_rollapp_block.Common.Dict.{Dict, set}
use dymension_rollapp_block.Common.Locale.{Locale}

-- The two JSON columns, `bech32` and `denoms`, hold objects of strings.
pub record ChainInfo : Type 0 where
  pub name : Str
  pub chain_id : Str
  pub be_json_rpc_urls : List Str
  pub bech32 : Dict Str
  pub chain_type : Str
  pub latest_indexed_block : ℕ
  pub denoms : Dict Str

pub record RollappInfo : Type 0 where
  pub chain_info : ChainInfo
  pub open chain_info use *
  pub path : Str
  pub is_favorite : Bool

-- `[a-z0-9-\s]`
abbrev pub is_kept : ℕ → Bool
is_kept c = is_lower c || is_digit c || c == b'-' || is_space c

-- `.replace(/\s/g, '-')`, one character
dash_of_space : ℕ → ℕ
dash_of_space c = if is_space c then b'-' else c

unfoldable pub path_name : Str → Str
unfolding keep trim dash_of_space is_space
path_name name = map dash_of_space (trim (keep is_kept name))

module _ (locale : Locale) where
  open locale use {to_lower_case}

  unfoldable pub get_rollapp_path_by_name : Str → Str
  unfolding path_name
  get_rollapp_path_by_name name = b'/' ∷ path_name (to_lower_case name)

  -- The object that the callback of `normalizeRollappsInfo` returns.
  unfoldable pub normalize_rollapp_info : ChainInfo → RollappInfo
  unfolding get_rollapp_path_by_name
  normalize_rollapp_info chain_info = record {
    chain_info = chain_info;
    path = get_rollapp_path_by_name chain_info.name;
    is_favorite = false;
  }

  unfoldable pub normalize_rollapps_info : List ChainInfo → List RollappInfo
  normalize_rollapps_info chain_infos = map normalize_rollapp_info chain_infos

  unfoldable pub get_rollapp_info_by_path : List ChainInfo → Str → Option RollappInfo
  unfolding normalize_rollapps_info
  get_rollapp_info_by_path chain_infos path =
      find (λ rollapp_info. rollapp_info.path === path) (normalize_rollapps_info chain_infos)

-- `reduce` over `{ ...finalObj, [rollappInfo.chain_id]: rollappInfo }`
unfoldable pub add_rollapp_infos : Dict RollappInfo → List RollappInfo → Dict RollappInfo
unfolding set
add_rollapp_infos final_obj [] = final_obj
add_rollapp_infos final_obj (rollapp_info ∷ rollapp_infos) =
    add_rollapp_infos (set final_obj rollapp_info.chain_id rollapp_info) rollapp_infos

unfoldable pub rollapp_infos_to_object : List RollappInfo → Dict RollappInfo
unfolding add_rollapp_infos
rollapp_infos_to_object rollapp_infos = add_rollapp_infos [] rollapp_infos

-- The local storage's item `favoriteRollapps`. It is written by `JSON.stringify` and read by
-- `JSON.parse`, which gives back an object of booleans as it was.
abbrev pub LocalStorage : Type 0
LocalStorage = Option (Dict Bool)

unfoldable pub get_favorite_rollapps : LocalStorage → Dict Bool
get_favorite_rollapps none = []
get_favorite_rollapps (some favorite_rollapps) = favorite_rollapps

unfoldable pub set_favorite_rollapps : Dict Bool → LocalStorage
set_favorite_rollapps favorite_rollapps = some favorite_rollapps

-- services/chain.service.ts: the RollApp whose address has the given segment
unfoldable pub get_roll_app_info_by_rollapp_path :
    Locale → List ChainInfo → Str → Option RollappInfo
unfolding get_rollapp_info_by_path
get_roll_app_info_by_rollapp_path locale chain_infos rollapp_path =
    get_rollapp_info_by_path locale chain_infos (b'/' ∷ rollapp_path)
