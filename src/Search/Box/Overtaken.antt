-- ===== src/Search/Box/Overtaken.antt =====
-- Which results are shown where searches are overtaken or fail.
use dymension_rollapp_block.Common.{◌≡◌, refl, true, false, none, some, [], ◌∷◌, ◌++◌}
use dymension_rollapp_block.Common.Text.{Str}
use dymension_rollapp_block.Common.Locale.{Locale}
use dymension_rollapp_block.Address.{ok, throw}
use dymension_rollapp_block.Search.{SearchResult, Services}
use dymension_rollapp_block.Search.Box.{
  Inputs, SearchBox, changes, elapses, settles_at, is_blank, all_rollapps, found, search_effect,
  elapse, without, settle_at, box_step, box_play, box_shown,
}

module _ (locale : Locale) (services : Services) where
  abbrev searching : SearchBox → Inputs → SearchBox
  searching box inputs = record box {
    inputs = inputs;
    timer = none;
    loading = true;
    awaited = box.awaited ++ inputs ∷ [];
  }

  -- A text is typed, and half a second goes by.
  typed :
      (box : SearchBox) (inputs : Inputs)
      → box.mounted ≡ true
      → is_blank inputs ≡ false
      → elapse (search_effect box inputs) ≡ searching box inputs
  unfolding elapse search_effect
  typed box inputs m w = rw (w, m) refl

  -- A search that is overtaken: where a box that awaits nothing is given a first text, whose search
  -- is still awaited when that of a second text is called and returns, and then returns too, the box
  -- has the second text and shows the results of the first, and waits for nothing.
  pub overtaken_result_shown :
      (box : SearchBox) (first second : Inputs) (a b : SearchResult)
      → box.mounted ≡ true
      → box.awaited ≡ []
      → is_blank first ≡ false
      → is_blank second ≡ false
      → found locale services first ≡ ok a
      → found locale services second ≡ ok b
      → let late =
          box_play locale services box (
            changes first
            ∷ elapses
            ∷ changes second
            ∷ elapses
            ∷ settles_at 1
            ∷ settles_at 0
            ∷ []) in
        (box_shown late ≡ some a)
        × (late.inputs ≡ second)
        × (late.timer ≡ none)
        × (late.awaited ≡ [])
  unfolding box_play box_step settle_at without
  overtaken_result_shown box first second a b m idle wa wb fa fb =
      rw (typed box first m wa, typed (searching box first) second m wb, idle, fb, m, fa)
        (refl, refl, refl, refl)

  -- Where the search of a text fails and the text is then cleared, with no RollApp selected, the
  -- box holds the list of the RollApps and waits for nothing, but shows the spinner.
  pub cleared_after_failure :
      (box : SearchBox) (first cleared : Inputs) (e : Str)
      → box.mounted ≡ true
      → box.awaited ≡ []
      → is_blank first ≡ false
      → is_blank cleared ≡ true
      → found locale services first ≡ throw e
      → let after =
          box_play locale services box
            (changes first ∷ elapses ∷ settles_at 0 ∷ changes cleared ∷ []) in
        (box_shown after ≡ none)
        × (after.search_result ≡ some (all_rollapps cleared))
        × (after.timer ≡ none)
        × (after.awaited ≡ [])
  unfolding box_play box_step settle_at without search_effect
  cleared_after_failure box first cleared e m idle w b f =
      rw (typed box first m w, idle, f, b) (refl, refl, refl, refl)
