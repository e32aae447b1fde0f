-- ===== src/Governance/Tally/Leader.antt =====
-- Which chip of the voting result is filled.
use dymension_rollapp_block.Common.{
  ℕ, zero, suc, ◌+◌, ◌-◌, ◌≤◌, ◌<◌, ◌≡◌, refl, sym, ap, ◌∙◌, none, some, List, [], ◌∷◌, map,
  get_elem?, Bool, false, ltb, ltb→lt, ◌==◌, Bool-cases, inl, inr, ◌⊎◌, arith,
}
use dymension_rollapp_block.Common.Text.{Str, text}
use dymension_rollapp_block.Governance.{TallyResult, GovProposal}
use dymension_rollapp_block.Governance.Detail.{get_voting_result}
use dymension_rollapp_block.Governance.Tally.{
  ℤ, Rounding, total_of, max_from, votes_of, max_id_of, get_voting_percent,
}

-- The index has the most votes, and more than any index before it.
abbrev pub IsLeader : List ℕ → ℕ → Type 0
IsLeader votes m =
    (v : ℕ) × (get_elem? votes m ≡ some v)
    × ((j w : ℕ) → get_elem? votes j ≡ some w → w ≤ v)
    × ((j w : ℕ) → get_elem? votes j ≡ some w → j < m → w < v)

module _ (votes : List ℕ) where
  -- `m` leads the votes before `i`, and has the votes `best`.
  unfoldable IsBest : (m best i : ℕ) → Type 0
  IsBest m best i =
      (get_elem? votes m ≡ some best)
      × (m < i)
      × ((j w : ℕ) → get_elem? votes j ≡ some w → j < i → w ≤ best)
      × ((j w : ℕ) → get_elem? votes j ≡ some w → j < m → w < best)

  ended :
      (i j w : ℕ) → ((k : ℕ) → get_elem? votes (i + k) ≡ none) → get_elem? votes j ≡ some w → j < i
  ended i j w from e = elim (Bool-cases (ltb j i)) [
    | inl h ↦ ltb→lt j i h
    | inr h ↦
        let sum : i + (j - i) ≡ j = grind arith in
        let out : get_elem? votes j ≡ none = ap (get_elem? votes) (sym sum) ∙ from (j - i) in
        absurd (ground arith)
  ]

  max_from-IsLeader :
      (rest : List ℕ) (m best i : ℕ)
      → ((k : ℕ) → get_elem? votes (i + k) ≡ get_elem? rest k)
      → IsBest m best i
      → IsLeader votes (max_from m best i rest)
  unfolding max_from IsBest
  max_from-IsLeader [] m best i from (here, before, most, first) =
      let past : (j w : ℕ) → get_elem? votes j ≡ some w → j < i = λ j w e. ended i j w from e in
      (best, here, (λ j w e. most j w e (past j w e)), first)
  max_from-IsLeader (v ∷ rest) m best i from (here, before, most, first) =
      let at : get_elem? votes i ≡ some v = ap (get_elem? votes) (omega arith) ∙ from 0 in
      let after : (k : ℕ) → get_elem? votes ((i + 1) + k) ≡ get_elem? rest k =
        λ k. ap (get_elem? votes) (omega arith) ∙ from (suc k) in
      let most' : (j w : ℕ)
          → get_elem? votes j ≡ some w
          → j < i + 1
          → (j < i × (w ≤ best)) ⊎ (w ≡ v) =
        λ j w e l. elim (Bool-cases (ltb j i)) [
          | inl h ↦ let b = ltb→lt j i h in inl (b, most j w e b)
          | inr h ↦
              let same : j ≡ i = grind arith in
              let value : some w ≡ some v = sym e ∙ ap (get_elem? votes) same ∙ at in
              inr (ground arith)
        ] in
      elim (Bool-cases (ltb best v)) [
        | inl h ↦ rw h (
            max_from-IsLeader rest i v (i + 1) after (
              at,
              ground arith,
              (λ j w e l. elim (most' j w e l) [ inl x ↦ ground arith | inr x ↦ ground arith ]),
              (λ j w e l. let b = most j w e l in ground arith),
            ))
        | inr h ↦ rw h (
            max_from-IsLeader rest m best (i + 1) after (
              here,
              ground arith,
              (λ j w e l. elim (most' j w e l) [ inl x ↦ ground arith | inr x ↦ ground arith ]),
              first,
            ))
      ]

head_value : (a : ℕ) (rest : List ℕ) (j w : ℕ) → get_elem? (a ∷ rest) j ≡ some w → j < 1 → w ≤ a
head_value a rest zero w e h = ground arith
head_value a rest (suc j) w e h = absurd (omega arith)

max_id_of-IsLeader : (t : TallyResult) → IsLeader (votes_of t) (max_id_of t)
unfolding max_id_of IsBest
max_id_of-IsLeader t =
    max_from-IsLeader (votes_of t) (t.no ∷ t.no_with_veto ∷ t.abstain ∷ []) 0 t.yes 1
      (λ k. let one : 1 + k ≡ suc k = omega arith in ap (get_elem? (votes_of t)) one)
      (
        refl,
        omega arith,
        head_value t.yes (t.no ∷ t.no_with_veto ∷ t.abstain ∷ []),
        λ j w e l. absurd (omega arith),
      )

-- With votes cast, the result has a chip for each of the four options, and one of them alone is
-- filled: that of an option with the most votes, the first of those that have as many.
pub filled_chip :
    (r : Rounding) (shown : ℤ → Str) (proposal : GovProposal)
    → 1 ≤ total_of proposal.final_tally_result
    → let t = proposal.final_tally_result in
      (m : ℕ) × IsLeader (t.yes ∷ t.no ∷ t.no_with_veto ∷ t.abstain ∷ []) m
      × (map {B = Str × Bool}
            (λ c. (c.label, c.is_filled))
            (get_voting_result r shown (some proposal))
          ≡ (text "Yes", m == 0)
            ∷ (text "No", m == 1)
            ∷ (text "No with veto", m == 2)
            ∷ (text "Abstain", m == 3)
            ∷ [])
unfolding get_voting_result get_voting_percent
filled_chip r shown proposal h =
    let t = proposal.final_tally_result in
    let no_total : (total_of t == 0) ≡ false = grind arith in
    (max_id_of t, max_id_of-IsLeader t, rw no_total refl)
