-- ===== src/Search/Box/Current.antt =====
-- Which text the results are those of.
use dymension_rollapp_block.Common.{
  ◌≡◌, ◌⊎◌, inl, inr, refl, sym, ◌∙◌, Bool, true, false, Option, none, some, List, [], ◌∷◌, ◌++◌,
  arith, Bool-cases,
}
use mathlib.Core.Path.{subst}
use dymension_rollapp_block.Common.Text.{◌===◌}
use dymension_rollapp_block.Common.Locale.{Locale}
use dymension_rollapp_block.Address.{Result, ok, throw}
use dymension_rollapp_block.Search.{SearchResult, Services, handle_global_search}
use dymension_rollapp_block.Search.Box.{
  Inputs, SearchBox, BoxEvent, changes, elapses, settles_at, goes_away, is_blank, all_rollapps,
  search_effect, initial_box, opened, without, go_away, elapse_with, settle_with, found, settle_at,
  box_step, box_play, box_shown,
}
use dymension_rollapp_block.Search.Box.Busy.{
  HasFailed, IsBusy, box_play-IsBusy, opened-IsBusy, idle_loaded,
}

module _ (locale : Locale) (services : Services) where
  -- Where the search of the inputs returns, its result is kept, and shown: only where the text was
  -- cleared the box may still load.
  abbrev pub IsOf : SearchBox → Inputs → Result SearchResult → Type 0
  IsOf box inputs (ok result) =
      (box.search_result ≡ some result) × ((box.loading ≡ false) ⊎ (is_blank inputs ≡ true))
  IsOf box inputs (throw e) = Unit

  -- The awaited searches are settled in the order of their calls, and the text is cleared only
  -- where none is awaited.
  abbrev pub IsOrderly : SearchBox → BoxEvent → Type 0
  IsOrderly box (changes inputs) = (is_blank inputs ≡ false) ⊎ (box.awaited ≡ [])
  IsOrderly box elapses = Unit
  IsOrderly box (settles_at i) = i ≡ 0
  IsOrderly box goes_away = Unit

  abbrev pub AreOrderly : SearchBox → List BoxEvent → Type 0
  AreOrderly box [] = Unit
  AreOrderly box (e ∷ events) = IsOrderly box e × AreOrderly (box_step locale services box e) events

  -- The last of the awaited searches.
  abbrev last_awaited : List Inputs → Inputs → Inputs
  last_awaited [] inputs = inputs
  last_awaited (i ∷ is) inputs = last_awaited is i

  abbrev IsCurrent : SearchBox → Option Inputs → List Inputs → Type 0
  IsCurrent box (some waiting) awaited = waiting ≡ box.inputs
  IsCurrent box none [] = IsOf box box.inputs (found locale services box.inputs)
  IsCurrent box none (i ∷ is) = last_awaited is i ≡ box.inputs

  -- What the state promises of its inputs, for as long as the component is there.
  abbrev IsKept : SearchBox → Type 0
  IsKept box = (box.mounted ≡ false) ⊎ IsCurrent box box.timer box.awaited

  blank_value : (inputs : Inputs) → is_blank inputs ≡ true → inputs.search_value ≡ []
  blank_value inputs b = ground arith

  blank_found :
      (inputs : Inputs)
      → is_blank inputs ≡ true
      → found locale services inputs ≡ ok (all_rollapps inputs)
  unfolding handle_global_search ◌===◌
  blank_found inputs b = rw (blank_value inputs b) refl

  search_effect-IsKept :
      (box : SearchBox) (inputs : Inputs)
      → IsOrderly box (changes inputs)
      → IsKept (search_effect box inputs)
  unfolding search_effect
  search_effect-IsKept box inputs o = elim (Bool-cases (is_blank inputs)) [
    | inl blank ↦
        let settled : box.awaited ≡ [] = ground arith in
        let now : SearchBox = record box {
          inputs = inputs;
          timer = none;
          search_result = some (all_rollapps inputs);
        } in
        let kept : IsOf now inputs (found locale services inputs) =
          subst (IsOf now inputs) (sym (blank_found inputs blank)) (refl, inr blank) in
        rw (blank, settled) (inr kept)
    | inr written ↦ rw written (inr refl)
  ]

  last_of_snoc : (i : Inputs) (is : List Inputs) (j : Inputs) → last_awaited (is ++ i ∷ []) j ≡ i
  last_of_snoc i [] j = refl
  last_of_snoc i (j ∷ is) k = last_of_snoc i is j

  snoc-IsCurrent :
      (box : SearchBox) (is : List Inputs) (i : Inputs)
      → i ≡ box.inputs
      → IsCurrent box none (is ++ i ∷ [])
  snoc-IsCurrent box [] i e = e
  snoc-IsCurrent box (j ∷ is) i e = last_of_snoc i is j ∙ e

  elapse_with-IsKept :
      (box : SearchBox) (timer : Option Inputs) (mounted : Bool)
      → box.timer ≡ timer
      → box.mounted ≡ mounted
      → IsKept box
      → IsKept (elapse_with box timer mounted)
  elapse_with-IsKept box none mounted t m k = k
  elapse_with-IsKept box (some i) true t m (inl gone) = absurd (ground arith)
  elapse_with-IsKept box (some i) true t m (inr k) =
      let now : SearchBox = record box {
        timer = none;
        loading = true;
        awaited = box.awaited ++ i ∷ [];
      } in
      inr (snoc-IsCurrent now box.awaited i (subst (λ o. IsCurrent box o box.awaited) t k))
  elapse_with-IsKept box (some i) false t m k = inl m

  -- The oldest of the awaited searches has its result.
  popped :
      (box now : SearchBox) (i : Inputs) (is : List Inputs) (timer : Option Inputs)
      → now.inputs ≡ box.inputs
      → IsOf now i (found locale services i)
      → IsCurrent box timer (i ∷ is)
      → IsCurrent now timer is
  popped box now i is (some w) same o k = k ∙ sym same
  popped box now i (j ∷ is) none same o k = k ∙ sym same
  popped box now i [] none same o k =
      subst (λ x. IsOf now x (found locale services x)) (k ∙ sym same) o

  settle_with-IsKept :
      (box : SearchBox) (i : Inputs) (result : Result SearchResult) (mounted : Bool)
      → box.mounted ≡ mounted
      → found locale services i ≡ result
      → IsCurrent box box.timer (i ∷ box.awaited)
      → IsKept (settle_with box result mounted)
  settle_with-IsKept box i (throw e) mounted m f k =
      inr (popped box box i box.awaited box.timer refl (subst (IsOf box i) (sym f) tt) k)
  settle_with-IsKept box i (ok result) false m f k = inl m
  settle_with-IsKept box i (ok result) true m f k =
      let now : SearchBox = record box { search_result = some result; loading = false } in
      inr (
        popped box now i box.awaited box.timer refl (subst (IsOf now i) (sym f) (refl, inl refl)) k)

  settle_gone :
      (box : SearchBox) (result : Result SearchResult) (mounted : Bool)
      → box.mounted ≡ false
      → IsKept (settle_with box result mounted)
  settle_gone box (throw e) mounted m = inl m
  settle_gone box (ok result) false m = inl m
  settle_gone box (ok result) true m = inl m

  settle_at-IsKept :
      (box : SearchBox) (awaited : List Inputs)
      → box.awaited ≡ awaited
      → IsKept box
      → IsKept (settle_at locale services box 0)
  unfolding settle_at without
  settle_at-IsKept box [] a k = rw a (rw a at k)
  settle_at-IsKept box (i ∷ is) a (inl m) =
      rw a (settle_gone (record box { awaited = is }) (found locale services i) box.mounted m)
  settle_at-IsKept box (i ∷ is) a (inr c) = rw a (
      settle_with-IsKept (record box { awaited = is }) i (found locale services i) box.mounted refl
        refl (rw a at c))

  box_step-IsKept :
      (box : SearchBox) (e : BoxEvent)
      → IsOrderly box e
      → IsKept box
      → IsKept (box_step locale services box e)
  unfolding box_step go_away
  box_step-IsKept box (changes inputs) o k = search_effect-IsKept box inputs o
  box_step-IsKept box elapses o k = elapse_with-IsKept box box.timer box.mounted refl refl k
  box_step-IsKept box (settles_at i) o k = rw o (settle_at-IsKept box box.awaited refl k)
  box_step-IsKept box goes_away o k = inl refl

  box_play-IsKept :
      (box : SearchBox) (events : List BoxEvent)
      → AreOrderly box events
      → IsKept box
      → IsKept (box_play locale services box events)
  unfolding box_play
  box_play-IsKept box [] o k = k
  box_play-IsKept box (e ∷ events) (o, os) k =
      box_play-IsKept (box_step locale services box e) events os (box_step-IsKept box e o k)

  opened-IsKept : (inputs : Inputs) → IsKept (opened inputs)
  unfolding opened
  opened-IsKept inputs = search_effect-IsKept (initial_box inputs) inputs (inr refl)

  kept_result :
      (box : SearchBox) (result : SearchResult)
      → box.mounted ≡ true
      → box.timer ≡ none
      → box.awaited ≡ []
      → found locale services box.inputs ≡ ok result
      → IsKept box
      → IsOf box box.inputs (ok result)
  kept_result box result m t a f (inl gone) = absurd (ground arith)
  kept_result box result m t a f (inr c) =
      let stopped : IsCurrent box none box.awaited = subst (λ o. IsCurrent box o box.awaited) t c in
      let idle : IsCurrent box none [] = subst (IsCurrent box none) a stopped in
      subst (IsOf box box.inputs) f idle

  -- After any events since the search box was opened, of which the awaited searches settle in the
  -- order of their calls and the text is cleared only while none is awaited: where the box is still
  -- there, no timeout is pending, no search is awaited, and the search of the present text,
  -- RollApps and selection returns, its result is kept. It is also shown, unless the text was
  -- cleared and one of the events was the failure of a search.
  pub current_result_kept :
      (inputs : Inputs) (events : List BoxEvent) (box : SearchBox) (result : SearchResult)
      → AreOrderly (opened inputs) events
      → box_play locale services (opened inputs) events ≡ box
      → box.mounted ≡ true
      → box.timer ≡ none
      → box.awaited ≡ []
      → found locale services box.inputs ≡ ok result
      → (box.search_result ≡ some result)
        × ((box_shown box ≡ some result)
            ⊎ ((is_blank box.inputs ≡ true) × HasFailed locale services (opened inputs) events))
  current_result_kept inputs events box result o p m t a f =
      let k : IsKept box =
        subst IsKept p (box_play-IsKept (opened inputs) events o (opened-IsKept inputs)) in
      let (same, settled) = kept_result box result m t a f k in
      (
        same,
        elim settled [
          | inl loaded ↦ inl (rw (loaded, same) refl)
          | inr blank ↦
              elim (box_play-IsBusy locale services (opened inputs) events
                (opened-IsBusy locale services inputs)) [
                  | inl failed ↦ inr (blank, failed)
                  | inr busy ↦
                      let loaded =
                        idle_loaded locale services box m a
                          (subst (IsBusy locale services) p busy) in
                      inl (rw (loaded, same) refl)
                ]
        ],
      )
