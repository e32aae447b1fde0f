-- ===== src/Governance/Tally.antt =====
-- The percentages of the votes, in web-app/src/components/client/governance: `getVotingPercent` of
-- GovernanceDetail.tsx and `getLinearGradientPercent` of GovernanceItem.tsx.
pub mod Leader
pub mod Abstain
use dymension_rollapp_block.Common.{
  ℕ, zero, suc, ◌+◌, ◌-◌, ◌*◌, ◌≤◌, ◌<◌, ◌^◌, Option, none, some, List, [], ◌∷◌, ◌==◌, ltb,
  if◌then◌else◌,
}
use dymension_rollapp_block.Governance.{TallyResult, GovProposal}

-- Whole numbers below zero too.
pub data ℤ : Type 0 where
  pos : ℕ → ℤ
  negsuc : ℕ → ℤ

-- `a - b`
unfoldable pub sub : ℕ → ℕ → ℤ
sub a b = if ltb a b then negsuc (b - a - 1) else pos (a - b)

-- What is used of the package `big.js`: a quotient is rounded to the nearest whole number of the
-- unit asked for, and half of one is rounded up (`Big.RM` is 1).
pub record Rounding : Type 0 where
  pub round_div : ℕ → ℕ → ℕ
  pub not_above : (n d : ℕ) → 1 ≤ d → 2 * d * round_div n d ≤ 2 * n + d
  pub not_below : (n d : ℕ) → 1 ≤ d → 2 * n + d < 2 * d * round_div n d + 2 * d

-- `Big.DP` is 20: a quotient has 20 decimals.
unit : ℕ
unit = 100000000000000000000

cent : ℕ
cent = 10000000000000000

unfoldable pub total_of : TallyResult → ℕ
total_of t = t.yes + t.no + t.no_with_veto + t.abstain

-- Percentages in hundredths. `max_id` is none in place of -1.
pub record VotingPercent : Type 0 where
  pub yes : ℕ
  pub no : ℕ
  pub no_with_veto : ℕ
  pub abstain : ℤ
  pub max_id : Option ℕ

abbrev pub default_result : VotingPercent
default_result = record { yes = 0; no = 0; no_with_veto = 0; abstain = pos 0; max_id = none }

-- The loop: the index `max` has the votes `best`, and `i` is the index of the first of the rest.
unfoldable pub max_from : (max best i : ℕ) → List ℕ → ℕ
max_from max best i [] = max
max_from max best i (v ∷ votes) =
    let next = max_from i v (i + 1) votes in
    let same = max_from max best (i + 1) votes in if ltb best v then next else same

abbrev pub votes_of : TallyResult → List ℕ
votes_of t = t.yes ∷ t.no ∷ t.no_with_veto ∷ t.abstain ∷ []

unfoldable pub max_id_of : TallyResult → ℕ
unfolding max_from
max_id_of t = max_from 0 t.yes 1 (t.no ∷ t.no_with_veto ∷ t.abstain ∷ [])

module _ (r : Rounding) where
  open r use {round_div}

  -- `votes.div(total).mul(100).round(2)`, in hundredths
  unfoldable pub percent : (votes total : ℕ) → ℕ
  unfolding unit cent
  percent votes total = round_div (round_div (votes * unit) total) cent

  unfoldable pub get_voting_percent : Option GovProposal → VotingPercent
  unfolding percent total_of max_id_of sub
  get_voting_percent none = default_result
  get_voting_percent (some proposal) =
      let t = proposal.final_tally_result in
      let total = total_of t in
      let a = percent t.yes total in
      let b = percent t.no total in
      let c = percent t.no_with_veto total in
      if total == 0 then default_result else record {
        yes = a;
        no = b;
        no_with_veto = c;
        abstain = sub 10000 (a + b + c);
        max_id = some (max_id_of t);
      }

  -- `getLinearGradientPercent`, in units of the quotient: where the colors of the bar end.
  unfoldable pub get_linear_gradient_percent : TallyResult → List ℕ
  unfolding unit total_of
  get_linear_gradient_percent t =
      let total = total_of t in
      let a = round_div (t.yes * unit) total * 100 in
      let c = round_div ((t.yes + t.no) * unit) total * 100 in
      let d = round_div ((t.yes + t.no + t.no_with_veto) * unit) total * 100 in
      if total == 0 then 0 ∷ 0 ∷ 0 ∷ 0 ∷ 0 ∷ [] else a ∷ a ∷ c ∷ d ∷ []
