-- ===== src/Tests/Searches.antt =====
-- A search box in which texts are typed.
use dymension_rollapp_block.Common.{◌≡◌, ◌⊎◌, inl, refl, true, none, some, List, [], ◌∷◌}
use dymension_rollapp_block.Common.Text.{Str, text, ◌===◌}
use dymension_rollapp_block.Common.Locale.{ascii}
use dymension_rollapp_block.Address.{package_error}
use dymension_rollapp_block.Search.{Services, SearchResult, handle_global_search}
use dymension_rollapp_block.Search.Box.{
  Inputs, SearchBox, BoxEvent, changes, elapses, settles_at, is_blank, all_rollapps, initial_box,
  opened, box_play, box_shown,
}
use dymension_rollapp_block.Search.Box.Busy.{HasFailed}
use dymension_rollapp_block.Search.Box.Current.{current_result_kept}
use dymension_rollapp_block.Search.Box.Overtaken.{overtaken_result_shown, cleared_after_failure}
use dymension_rollapp_block.Tests.Addresses.{plain}
use dymension_rollapp_block.Tests.Data.{dym_info, nim_info}

-- Of the package that reads an account's address, the text is no address.
abbrev services : Services
services = record { bech32 = plain; get_address = λ s. none; find_txs = λ hashes. [] }

abbrev typed : Str → Inputs
typed s = record {
  search_value = s;
  rollapp_infos = dym_info ∷ nim_info ∷ [];
  selected_rollapp_info = none;
}

abbrev blank : Inputs
blank = typed []

-- The results for a text that is in one name.
abbrev named : SearchResult
named = record { rollapps = some (nim_info ∷ []); blocks = none; txs = none; accounts = none }

abbrev hub : SearchResult
hub = record { rollapps = some (dym_info ∷ []); blocks = none; txs = none; accounts = none }

abbrev evm_address : Str
evm_address = text "0x0123456789abcdef0123456789abcdef01234567"

abbrev searched : List BoxEvent
searched = changes (typed (text "nim")) ∷ elapses ∷ settles_at 0 ∷ []

abbrev late : SearchBox
late = record (initial_box (typed (text "nim"))) { search_result = some named }

current_result_kept_example :
    (late.search_result ≡ some named)
    × ((box_shown late ≡ some named)
        ⊎ ((is_blank late.inputs ≡ true) × HasFailed ascii services (opened blank) searched))
unfolding handle_global_search box_play opened ◌===◌
current_result_kept_example =
    current_result_kept ascii services blank searched late named (inl refl, (tt, (refl, tt))) refl
      refl refl refl refl

overtaken_result_shown_example :
    let box = box_play ascii services (initial_box blank) (
      changes (typed (text "nim"))
      ∷ elapses
      ∷ changes (typed (text "hub"))
      ∷ elapses
      ∷ settles_at 1
      ∷ settles_at 0
      ∷ []) in
    (box_shown box ≡ some named)
    × (box.inputs ≡ typed (text "hub"))
    × (box.timer ≡ none)
    × (box.awaited ≡ [])
unfolding handle_global_search ◌===◌
overtaken_result_shown_example =
    overtaken_result_shown ascii services (initial_box blank) (typed (text "nim"))
      (typed (text "hub")) named hub refl refl refl refl refl refl

cleared_after_failure_example :
    let box =
      box_play ascii services
        (initial_box blank)
        (changes (typed evm_address) ∷ elapses ∷ settles_at 0 ∷ changes blank ∷ []) in
    (box_shown box ≡ none)
    × (box.search_result ≡ some (all_rollapps blank))
    × (box.timer ≡ none)
    × (box.awaited ≡ [])
unfolding handle_global_search ◌===◌
cleared_after_failure_example =
    cleared_after_failure ascii services (initial_box blank) (typed evm_address) blank package_error
      refl refl refl refl refl
