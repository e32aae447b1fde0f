-- ===== src/Store/State.antt =====
-- The state of web-app/src/stores/rollappStore.ts, and web-app/src/utils/store.ts.
use dymension_rollapp_block.Common.{ℕ, Bool, false, Option, none, some, List, [], ◌∷◌, find}
use dymension_rollapp_block.Common.Text.{Str, ◌===◌}
use dymension_rollapp_block.Common.Dict.{Dict}
use dymension_rollapp_block.Pathname.{get_rollapp_path_from_pathname}
use dymension_rollapp_block.Rollapp.{RollappInfo}

-- `DenomMetadata` of consts/rpcResTypes.ts
pub record DenomMetadata : Type 0 where
  pub denom_units : List (Str × ℕ)
  pub base : Str
  pub name : Str
  pub symbol : Str
  pub highest_exponent : ℕ

-- An `RpcService` is known by the address that its client calls.
pub record RpcService : Type 0 where
  pub rpc_url : Str

abbrev pub Ref : Type 0
Ref = ℕ

abbrev pub Heap : Type 0
Heap = Ref → RollappInfo

pub record RollappState : Type 0 where
  pub rollapp_infos : List Ref
  pub selected_rollapp_info : Option Ref
  pub rpc_service : Option RpcService
  pub denoms_metadata : Dict DenomMetadata
  pub has_gotten_denoms_metadata : Bool

abbrev pub default_rollapp_state : RollappState
default_rollapp_state = record {
  rollapp_infos = [];
  selected_rollapp_info = none;
  rpc_service = none;
  denoms_metadata = [];
  has_gotten_denoms_metadata = false;
}

-- `Partial<RollappState>`: the fields that an action gives anew.
pub record Patch : Type 0 where
  pub rollapp_infos : Option (List Ref)
  pub selected_rollapp_info : Option (Option Ref)
  pub rpc_service : Option (Option RpcService)
  pub denoms_metadata : Option (Dict DenomMetadata)
  pub has_gotten_denoms_metadata : Option Bool

abbrev pub empty_patch : Patch
empty_patch = record {
  rollapp_infos = none;
  selected_rollapp_info = none;
  rpc_service = none;
  denoms_metadata = none;
  has_gotten_denoms_metadata = none;
}

abbrev pub given {ℓ} : {A : Type ℓ} → Option A → A → A
given none old = old
given (some new) old = new

-- `{ ...state, ...newState }`
unfoldable pub merge : RollappState → Patch → RollappState
merge s p = record {
  rollapp_infos = given p.rollapp_infos s.rollapp_infos;
  selected_rollapp_info = given p.selected_rollapp_info s.selected_rollapp_info;
  rpc_service = given p.rpc_service s.rpc_service;
  denoms_metadata = given p.denoms_metadata s.denoms_metadata;
  has_gotten_denoms_metadata = given p.has_gotten_denoms_metadata s.has_gotten_denoms_metadata;
}

unfoldable pub get_selected_rollapp_info_by_pathname : Heap → List Ref → Str → Option Ref
get_selected_rollapp_info_by_pathname heap rollapp_infos rollapp_path =
    find (λ r. (heap r).path === rollapp_path) rollapp_infos

unfoldable pub first_url : List Str → Option RpcService
first_url [] = none
first_url (url ∷ _) = some (record { rpc_url = url })

unfoldable pub get_rpc_service_from_selected_rollapp_info : Heap → Option Ref → Option RpcService
unfolding first_url
get_rpc_service_from_selected_rollapp_info heap none = none
get_rpc_service_from_selected_rollapp_info heap (some r) = first_url (heap r).be_json_rpc_urls

-- `none` is the exception of `getRollappPathFromPathname`.
unfoldable pub get_initial_rollapp_state : Heap → List Ref → Str → Option RollappState
unfolding get_selected_rollapp_info_by_pathname get_rpc_service_from_selected_rollapp_info
    get_rollapp_path_from_pathname
get_initial_rollapp_state heap rollapp_infos pathname =
    elim (get_rollapp_path_from_pathname pathname) [
      | none ↦ none
      | some rollapp_path ↦
          let selected = get_selected_rollapp_info_by_pathname heap rollapp_infos rollapp_path in
          some (record {
            rollapp_infos = rollapp_infos;
            selected_rollapp_info = selected;
            rpc_service = get_rpc_service_from_selected_rollapp_info heap selected;
            denoms_metadata = [];
            has_gotten_denoms_metadata = false;
          })
    ]
