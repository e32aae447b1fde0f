-- ===== src/Search/Box/Busy.antt =====
-- Where the search box loads.
use dymension_rollapp_block.Common.{
  ℕ, ◌≡◌, ◌≢◌, ◌⊎◌, inl, inr, refl, sym, ap, Bool, true, false, Option, none, some, List, [], ◌∷◌,
  ◌++◌, arith, Bool-cases, Option-cases, get_elem?,
}
use mathlib.Core.Path.{subst}
use dymension_rollapp_block.Common.Text.{Str}
use dymension_rollapp_block.Common.Locale.{Locale}
use dymension_rollapp_block.Address.{Result, ok, throw}
use dymension_rollapp_block.Search.{SearchResult, Services}
use dymension_rollapp_block.Search.Box.{
  Inputs, SearchBox, BoxEvent, changes, elapses, settles_at, goes_away, is_blank, search_effect,
  initial_box, opened, without, go_away, elapse_with, settle_with, found, settle_at, box_step,
  box_play,
}

module _ (locale : Locale) (services : Services) where
  -- An event settles a search that fails.
  abbrev FailsAt : SearchBox → BoxEvent → Type 0
  FailsAt box (changes inputs) = ⊥
  FailsAt box elapses = ⊥
  FailsAt box goes_away = ⊥
  FailsAt box (settles_at i) =
      (inputs : Inputs) × (e : Str) × (get_elem? box.awaited i ≡ some inputs)
      × (found locale services inputs ≡ throw e)

  -- Some event of a history does.
  abbrev pub HasFailed : SearchBox → List BoxEvent → Type 0
  HasFailed box [] = ⊥
  HasFailed box (e ∷ events) = FailsAt box e ⊎ HasFailed (box_step locale services box e) events

  -- The box only loads while a search is awaited, for as long as the component is there.
  abbrev pub IsBusy : SearchBox → Type 0
  IsBusy box = (box.mounted ≡ false) ⊎ ((box.loading ≡ false) ⊎ (box.awaited ≢ []))

  some_awaited : (is : List Inputs) (i : Inputs) → is ++ i ∷ [] ≢ []
  some_awaited [] i = ground arith
  some_awaited (j ∷ is) i = ground arith

  elapse_with-IsBusy :
      (box : SearchBox) (timer : Option Inputs) (mounted : Bool)
      → IsBusy box
      → IsBusy (elapse_with box timer mounted)
  elapse_with-IsBusy box none mounted k = k
  elapse_with-IsBusy box (some i) true k = inr (inr (some_awaited box.awaited i))
  elapse_with-IsBusy box (some i) false k = k

  search_effect-IsBusy :
      (box : SearchBox) (inputs : Inputs) → IsBusy box → IsBusy (search_effect box inputs)
  unfolding search_effect
  search_effect-IsBusy box inputs k = elim (Bool-cases (is_blank inputs)) [
    | inl blank ↦ rw blank k
    | inr written ↦ rw written k
  ]

  settle_with-IsBusy :
      (box : SearchBox) (result : Result SearchResult) (mounted : Bool)
      → box.mounted ≡ mounted
      → ((e : Str) × (result ≡ throw e)) ⊎ IsBusy (settle_with box result mounted)
  settle_with-IsBusy box (throw e) mounted m = inl (e, refl)
  settle_with-IsBusy box (ok result) true m = inr (inr (inl refl))
  settle_with-IsBusy box (ok result) false m = inr (inl m)

  -- A search that is awaited settles, or none is at that index.
  abbrev settled_as : SearchBox → ℕ → Option Inputs → SearchBox
  settled_as box i none = box
  settled_as box i (some inputs) =
      settle_with (record box { awaited = without i box.awaited }) (found locale services inputs)
        box.mounted

  settle_at_lem :
      (box : SearchBox) (i : ℕ) (o : Option Inputs)
      → get_elem? box.awaited i ≡ o
      → settle_at locale services box i ≡ settled_as box i o
  unfolding settle_at
  settle_at_lem box i o at = ap (settled_as box i) at

  settle_at-IsBusy :
      (box : SearchBox) (i : ℕ)
      → IsBusy box
      → FailsAt box (settles_at i) ⊎ IsBusy (settle_at locale services box i)
  settle_at-IsBusy box i k = elim (Option-cases (get_elem? box.awaited i)) [
    | inl out ↦ inr (subst IsBusy (sym (settle_at_lem box i none out)) k)
    | inr (inputs, at) ↦
        elim (settle_with-IsBusy (record box { awaited = without i box.awaited })
          (found locale services inputs) box.mounted refl) [
            | inl (e, fails) ↦ inl (inputs, e, at, fails)
            | inr busy ↦ inr (subst IsBusy (sym (settle_at_lem box i (some inputs) at)) busy)
          ]
  ]

  box_step-IsBusy :
      (box : SearchBox) (e : BoxEvent)
      → IsBusy box
      → FailsAt box e ⊎ IsBusy (box_step locale services box e)
  unfolding box_step go_away
  box_step-IsBusy box (changes inputs) k = inr (search_effect-IsBusy box inputs k)
  box_step-IsBusy box elapses k = inr (elapse_with-IsBusy box box.timer box.mounted k)
  box_step-IsBusy box (settles_at i) k = settle_at-IsBusy box i k
  box_step-IsBusy box goes_away k = inr (inl refl)

  pub box_play-IsBusy :
      (box : SearchBox) (events : List BoxEvent)
      → IsBusy box
      → HasFailed box events ⊎ IsBusy (box_play locale services box events)
  unfolding box_play
  box_play-IsBusy box [] k = inr k
  box_play-IsBusy box (e ∷ events) k = elim (box_step-IsBusy box e k) [
    | inl fails ↦ inl (inl fails)
    | inr busy ↦ elim (box_play-IsBusy (box_step locale services box e) events busy) [
      | inl later ↦ inl (inr later)
      | inr still ↦ inr still
    ]
  ]

  pub opened-IsBusy : (inputs : Inputs) → IsBusy (opened inputs)
  unfolding opened
  opened-IsBusy inputs = search_effect-IsBusy (initial_box inputs) inputs (inr (inl refl))

  pub idle_loaded :
      (box : SearchBox) → box.mounted ≡ true → box.awaited ≡ [] → IsBusy box → box.loading ≡ false
  idle_loaded box m a (inl gone) = absurd (ground arith)
  idle_loaded box m a (inr (inl loaded)) = loaded
  idle_loaded box m a (inr (inr waits)) = absurd (waits a)
