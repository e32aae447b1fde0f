-- ===== src/Database/Chains/Active.antt =====
-- The chains that the queries find.
use dymension_rollapp_block.Common.{
  ||_iff, any_found, any_of, ℕ, ◌<◌, ◌≡◌, ◌≢◌, ◌↔◌, ◌⊎◌, inl, inr, refl, sym, ap, Bool, true, false,
  not, ◌&&◌, ◌||◌, Option, none, some, List, [], ◌∷◌, Member, ltb, arith, lt→ltb,
}
use mathlib.Core.Path.{subst}
use dymension_rollapp_block.Common.Text.{Str, text, ◌===◌, ===_iff}
use dymension_rollapp_block.Common.Dict.{get}
use dymension_rollapp_block.Common.Locale.{compare_units}
use dymension_rollapp_block.Common.Sort.{sort, member_of_sort, sort_of_member}
use dymension_rollapp_block.Database.{plain_query}
use dymension_rollapp_block.Database.Chains.{
  ChainRow, ChainModel, ChainWhere, both, either, meets, chain_id_in, chain_type_is, bech32_is,
  holds, is_null, get_exclude_postponed_chain_condition, get_evm_chain_info,
  get_chain_info_by_prefix, get_chain_names_by_chain_ids,
}

-- A chain that is not postponed, and whose time, where it has one, is not over.
abbrev pub IsActive : (now : ℕ) → ChainRow → Type 0
IsActive now c = (c.postponed ≢ some true) × ((e : ℕ) → c.expiry_at_epoch ≡ some e → now < e)

kept_iff : (p : Option Bool) → ((is_null p || holds (λ b. not b) p) ≡ true) ↔ (p ≢ some true)
kept_iff none = ((λ h e. cc), λ h. refl)
kept_iff (some true) = ((λ h. absurd (ground arith)), λ h. absurd (h refl))
kept_iff (some false) = ((λ h e. ground arith), λ h. refl)

lasts_iff :
    (now : ℕ) (o : Option ℕ)
    → ((is_null o || holds (λ e. ltb now e) o) ≡ true) ↔ ((e : ℕ) → o ≡ some e → now < e)
lasts_iff now none = ((λ h e k. absurd (ground arith)), λ h. refl)
lasts_iff now (some d) = ((λ h e k. ground arith), λ h. lt→ltb now d (h d refl))

&&_iff : (a b : Bool) → ((a && b) ≡ true) ↔ ((a ≡ true) × (b ≡ true))
&&_iff a b = ground arith

not_excluded_iff :
    (at_nan : ChainRow → Bool) (now : ℕ) (c : ChainRow)
    → (meets at_nan (get_exclude_postponed_chain_condition now) c ≡ true) ↔ IsActive now c
unfolding meets get_exclude_postponed_chain_condition
not_excluded_iff at_nan now c =
    let a = kept_iff c.postponed in
    let b = lasts_iff now c.expiry_at_epoch in
    let split =
      &&_iff (is_null c.postponed || holds (λ p. not p) c.postponed)
        (is_null c.expiry_at_epoch || holds (λ e. ltb now e) c.expiry_at_epoch) in
    ((λ h. let (k, l) = split.0 h in (a.0 k, b.0 l)), λ (k, l). split.1 (a.1 k, b.1 l))

held_iff : (s : Str) (o : Option Str) → (holds (λ p. p === s) o ≡ true) ↔ (o ≡ some s)
held_iff s none = ((λ h. absurd (ground arith)), λ h. absurd (ground arith))
held_iff s (some p) = (
  (λ h. ap (λ (q : Str). some q) ((===_iff p s).0 h)),
  λ h. let same : p ≡ s = ground arith in (===_iff p s).1 same,
)

module _ (chains : ChainModel) (now : ℕ) where
  open chains use {table}

  -- What a query with a further condition finds.
  found_with_iff :
      {P : Type 0} (c : ChainRow) (w : ChainWhere)
      → (meets chains.at_nan w c ≡ true) ↔ P
      → Member c
          (chains.find_many (plain_query (both (get_exclude_postponed_chain_condition now) w)))
        ↔ (Member c table × IsActive now c × P)
  unfolding meets
  found_with_iff c w further =
      let activity = get_exclude_postponed_chain_condition now in
      let found = chains.found_iff c (both activity w) [] in
      let split = &&_iff (meets chains.at_nan activity c) (meets chains.at_nan w c) in
      let active = not_excluded_iff chains.at_nan now c in
      (
        (λ m. let (n, h) = found.0 m in let (k, l) = split.0 h in (n, active.0 k, further.0 l)),
        λ (n, k, l). found.1 (n, split.1 (active.1 k, further.1 l)),
      )

  in_iff :
      (c : ChainRow) (ids : List Str)
      → (meets chains.at_nan (chain_id_in (sort compare_units ids)) c ≡ true)
        ↔ Member c.chain_id ids
  unfolding meets
  in_iff c ids = (
    (λ h.
        let (id, m, e) = any_found (λ i. c.chain_id === i) (sort compare_units ids) h in
        let same : c.chain_id ≡ id = (===_iff c.chain_id id).0 e in
        subst (λ i. Member i ids) (sym same) (member_of_sort compare_units id ids m)),
    λ m.
        any_of (λ i. c.chain_id === i) c.chain_id (sort compare_units ids)
          (sort_of_member compare_units c.chain_id ids m) ((===_iff c.chain_id c.chain_id).1 refl),
  )

  prefix_iff :
      (c : ChainRow) (path prefix : Str)
      → (meets chains.at_nan (bech32_is path prefix) c ≡ true) ↔ (get c.bech32 path ≡ some prefix)
  unfolding meets
  prefix_iff c path prefix = held_iff prefix (get c.bech32 path)

  -- The chains that are found for EVM addresses, for a prefix of Bech32 addresses, and for chain
  -- ids, of which there is at least one, are the active chains of the table of that type, with that
  -- prefix of accounts or of validators, and with one of those ids.
  pub chains_found_iff :
      (c : ChainRow) (prefix id : Str) (ids : List Str)
      → (Member c (get_evm_chain_info chains now)
          ↔ (Member c table × IsActive now c × (c.chain_type ≡ text "evm")))
        × (Member c (get_chain_info_by_prefix chains now prefix) ↔ (
            Member c table
            × IsActive now c
            × ((get c.bech32 (text "addr") ≡ some prefix)
                ⊎ (get c.bech32 (text "val") ≡ some prefix))))
        × (Member c (get_chain_names_by_chain_ids chains now (id ∷ ids))
            ↔ (Member c table × IsActive now c × Member c.chain_id (id ∷ ids)))
  unfolding get_evm_chain_info get_chain_info_by_prefix get_chain_names_by_chain_ids meets
  chains_found_iff c prefix id ids =
      let addr = prefix_iff c (text "addr") prefix in
      let val = prefix_iff c (text "val") prefix in
      let prefixes =
        ||_iff (meets chains.at_nan (bech32_is (text "addr") prefix) c)
          (meets chains.at_nan (bech32_is (text "val") prefix) c) in
      (
        found_with_iff c (chain_type_is (text "evm")) (===_iff c.chain_type (text "evm")),
        found_with_iff c (either (bech32_is (text "addr") prefix) (bech32_is (text "val") prefix)) (
          (λ h. elim (prefixes.0 h) [ inl k ↦ inl (addr.0 k) | inr k ↦ inr (val.0 k) ]),
          λ h. prefixes.1 (elim h [ inl k ↦ inl (addr.1 k) | inr k ↦ inr (val.1 k) ]),
        ),
        found_with_iff c (chain_id_in (sort compare_units (id ∷ ids))) (in_iff c (id ∷ ids)),
      )
