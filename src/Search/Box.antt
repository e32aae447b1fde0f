-- ===== src/Search/Box.antt =====
-- The search box, web-app/src/components/client/search/Search.tsx: a text, the search that waits
-- for half a second, and the searches that are awaited.
pub mod Current
pub mod Busy
pub mod Overtaken
use dymension_rollapp_block.Common.{
  ℕ, zero, suc, Bool, true, false, ◌||◌, Option, none, some, List, [], ◌∷◌, ◌++◌, get_elem?,
  if◌then◌else◌,
}
use dymension_rollapp_block.Common.Text.{Str}
use dymension_rollapp_block.Common.Locale.{Locale}
use dymension_rollapp_block.Rollapp.{RollappInfo}
use dymension_rollapp_block.Address.{Result, ok, throw}
use dymension_rollapp_block.Search.{SearchResult, Services, handle_global_search}

-- What the effect and `handleSearch` depend on.
pub record Inputs : Type 0 where
  pub search_value : Str
  pub rollapp_infos : List RollappInfo
  pub selected_rollapp_info : Option RollappInfo

-- `timer` has what the timeout that is pending searches for, `awaited` what the searches that are
-- awaited were called with, the oldest first.
pub record SearchBox : Type 0 where
  pub inputs : Inputs
  pub loading : Bool
  pub search_result : Option SearchResult
  pub mounted : Bool
  pub timer : Option Inputs
  pub awaited : List Inputs

pub data BoxEvent : Type 0 where
  changes : Inputs → BoxEvent
  elapses : BoxEvent
  settles_at : (index : ℕ) → BoxEvent
  goes_away : BoxEvent

-- `!searchValue && !selectedRollappInfo`
abbrev pub is_blank : Inputs → Bool
is_blank inputs = elim inputs.search_value [
  | [] ↦ elim inputs.selected_rollapp_info [ none ↦ true | some r ↦ false ]
  | _ ∷ _ ↦ false
]

abbrev pub all_rollapps : Inputs → SearchResult
all_rollapps inputs = record {
  rollapps = some inputs.rollapp_infos;
  blocks = none;
  txs = none;
  accounts = none;
}

-- The effect, behind the cleanup of the run before, which clears its timeout.
unfoldable pub search_effect : SearchBox → Inputs → SearchBox
search_effect box inputs =
    if is_blank inputs
    then record box { inputs = inputs; timer = none; search_result = some (all_rollapps inputs) }
    else record box { inputs = inputs; timer = some inputs }

abbrev pub initial_box : Inputs → SearchBox
initial_box inputs = record {
  inputs = inputs;
  loading = false;
  search_result = none;
  mounted = true;
  timer = none;
  awaited = [];
}

-- The first effect of the component.
unfoldable pub opened : Inputs → SearchBox
opened inputs = search_effect (initial_box inputs) inputs

-- The timeout: `handleSearch` up to its `await`.
abbrev pub elapse_with : SearchBox → Option Inputs → (mounted : Bool) → SearchBox
elapse_with box none mounted = box
elapse_with box (some inputs) true = record box {
  timer = none;
  loading = true;
  awaited = box.awaited ++ inputs ∷ [];
}
elapse_with box (some inputs) false = record box { timer = none }

unfoldable pub elapse : SearchBox → SearchBox
elapse box = elapse_with box box.timer box.mounted

unfoldable pub without : {A : Type 0} → ℕ → List A → List A
without i [] = []
without zero (x ∷ xs) = xs
without (suc i) (x ∷ xs) = x ∷ without i xs

-- The cleanup at the end, which leaves `mounted.current` false.
unfoldable pub go_away : SearchBox → SearchBox
go_away box = record box { mounted = false; timer = none }

-- `handleSearch` behind its `await`. A search that fails leaves the state as it is.
abbrev pub settle_with : SearchBox → Result SearchResult → (mounted : Bool) → SearchBox
settle_with box (throw e) mounted = box
settle_with box (ok result) true = record box { search_result = some result; loading = false }
settle_with box (ok result) false = box

module _ (locale : Locale) (services : Services) where
  abbrev pub found : Inputs → Result SearchResult
  found inputs =
      handle_global_search locale services inputs.search_value inputs.rollapp_infos
        inputs.selected_rollapp_info

  unfoldable pub settle_at : SearchBox → ℕ → SearchBox
  unfolding without
  settle_at box i = elim (get_elem? box.awaited i) [
    | none ↦ box
    | some inputs ↦
        settle_with (record box { awaited = without i box.awaited }) (found inputs) box.mounted
  ]

  unfoldable pub box_step : SearchBox → BoxEvent → SearchBox
  unfolding search_effect elapse settle_at go_away
  box_step box (changes inputs) = search_effect box inputs
  box_step box elapses = elapse box
  box_step box (settles_at i) = settle_at box i
  box_step box goes_away = go_away box

  unfoldable pub box_play : SearchBox → List BoxEvent → SearchBox
  unfolding box_step
  box_play box [] = box
  box_play box (e ∷ events) = box_play (box_step box e) events

-- What stands below the text: a spinner (`none`), or the results.
abbrev pub box_shown : SearchBox → Option SearchResult
box_shown box = if box.loading then none else box.search_result
