-- ===== src/Search/Contains.antt =====
-- The search for RollApps by a part of their name or chain id.
use dymension_rollapp_block.Common.{
  ◌≡◌, ◌↔◌, ◌⊎◌, inl, inr, refl, sym, ap, true, ◌||◌, Option, none, some, List, [], ◌∷◌, ◌++◌,
  filter, Member, member-filter_iff, arith, Bool-cases,
}
use mathlib.Core.Path.{subst}
use dymension_rollapp_block.Common.Text.{Str, starts_with, includes}
use dymension_rollapp_block.Common.Locale.{Locale}
use dymension_rollapp_block.Rollapp.{RollappInfo}
use dymension_rollapp_block.Search.{or_null, get_rollapp_search_result}

-- A text stands somewhere in another.
abbrev pub Contains : Str → Str → Type 0
Contains s p = (before : Str) × (after : Str) × (s ≡ before ++ p ++ after)

starts_sound : (s p : Str) → starts_with s p ≡ true → (after : Str) × (s ≡ p ++ after)
unfolding starts_with
starts_sound s [] h = (s, refl)
starts_sound [] (d ∷ p) h = ground arith
starts_sound (c ∷ s) (d ∷ p) h =
    let (after, e) = starts_sound s p (ground arith) in
    let same : c ≡ d = ground arith in (after, cc)

starts_complete : (p after : Str) → starts_with (p ++ after) p ≡ true
unfolding starts_with
starts_complete [] after = refl
starts_complete (d ∷ p) after = ground (arith, starts_complete p after)

includes_sound : (s p : Str) → includes s p ≡ true → Contains s p
unfolding includes
includes_sound [] p h = let (after, e) = starts_sound [] p h in ([], after, e)
includes_sound (c ∷ s) p h = elim (Bool-cases (starts_with (c ∷ s) p)) [
  | inl now ↦ let (after, e) = starts_sound (c ∷ s) p now in ([], after, e)
  | inr later ↦
      let (before, after, e) = includes_sound s p (ground arith) in
      (c ∷ before, after, ap (λ r. c ∷ r) e)
]

starts-includes : (s p : Str) → starts_with s p ≡ true → includes s p ≡ true
unfolding includes
starts-includes [] p h = h
starts-includes (c ∷ s) p h = ground arith

includes_complete : (p before after : Str) → includes (before ++ p ++ after) p ≡ true
unfolding includes
includes_complete p [] after = starts-includes (p ++ after) p (starts_complete p after)
includes_complete p (c ∷ before) after = ground (arith, includes_complete p before after)

includes_iff : (s p : Str) → (includes s p ≡ true) ↔ Contains s p
includes_iff s p =
    (includes_sound s p, λ (before, after, e). rw e (includes_complete p before after))

abbrev pub rollapps_found : Option (List RollappInfo) → List RollappInfo
rollapps_found none = []
rollapps_found (some infos) = infos

found_or_null : (infos : List RollappInfo) → rollapps_found (or_null infos) ≡ infos
found_or_null [] = refl
found_or_null (i ∷ infos) = refl

either_iff : (s t p : Str) → ((includes s p || includes t p) ≡ true) ↔ (Contains s p ⊎ Contains t p)
either_iff s t p = (
  λ h. elim (Bool-cases (includes s p)) [
    | inl first ↦ inl (includes_sound s p first)
    | inr other ↦ inr (includes_sound t p (ground arith))
  ],
  λ found. elim found [
    | inl first ↦ let h = (includes_iff s p).1 first in ground arith
    | inr second ↦ let h = (includes_iff t p).1 second in ground arith
  ],
)

-- The search for RollApps finds exactly those whose name or chain id contains the text that is
-- searched, all in small letters.
pub rollapp_search_iff :
    (locale : Locale) (search_text : Str) (infos : List RollappInfo) (i : RollappInfo)
    → Member i (rollapps_found (get_rollapp_search_result locale search_text infos)) ↔ (
        Member i infos
        × (Contains (locale.to_lower_case i.name) (locale.to_lower_case search_text)
            ⊎ Contains (locale.to_lower_case i.chain_id) (locale.to_lower_case search_text)))
unfolding get_rollapp_search_result
rollapp_search_iff locale search_text infos i =
    let wanted = locale.to_lower_case search_text in
    let test = λ (j : RollappInfo).
      includes (locale.to_lower_case j.name) wanted
      || includes (locale.to_lower_case j.chain_id) wanted in
    let kept = member-filter_iff test i infos in
    let shown = found_or_null (filter test infos) in
    let tested =
      either_iff (locale.to_lower_case i.name) (locale.to_lower_case i.chain_id) wanted in
    (
      λ m. let (listed, h) = kept.0 (subst (λ is. Member i is) shown m) in (listed, tested.0 h),
      λ (listed, h). subst (λ is. Member i is) (sym shown) (kept.1 (listed, tested.1 h)),
    )
