-- ===== src/Governance/Tally/Abstain.antt =====
-- The percentage of the abstentions, which is what the other three leave of a hundred.
use dymension_rollapp_block.Common.{
  ℕ, ◌+◌, ◌*◌, ◌≤◌, ◌<◌, ◌≡◌, refl, ap, ◌∙◌, some, ◌==◌, false, arith,
}
use dymension_rollapp_block.Governance.{GovProposal}
use dymension_rollapp_block.Governance.Tally.{
  negsuc, sub, Rounding, total_of, unit, cent, percent, get_voting_percent,
}
use native.Mathlib.Nat.{le_of_mul-le-mul_left, lt_of_mul-lt-mul_left}

module _ (r : Rounding) where
  open r use {round_div, not_above, not_below}

  sixth :
      (k m q : ℕ)
      → 1 ≤ k
      → 12 * q ≤ 2 * m + 6
      → 2 * m + 6 < 12 * q + 12
      → round_div (k * m) (6 * k) ≡ q
  sixth k m q h above below =
      let p = round_div (k * m) (6 * k) in
      let a : k * (12 * p) ≤ k * (2 * m + 6) =
        grind (arith, not_above (k * m) (6 * k) (omega arith)) in
      let b : k * (2 * m + 6) < k * (12 * p + 12) =
        grind (arith, not_below (k * m) (6 * k) (omega arith)) in
      let a' = le_of_mul-le-mul_left a (omega arith) in
      let b' = lt_of_mul-lt-mul_left k b in omega arith

  hundredths :
      (n q : ℕ)
      → 2 * cent * q ≤ 2 * n + cent
      → 2 * n + cent < 2 * cent * q + 2 * cent
      → round_div n cent ≡ q
  unfolding cent
  hundredths n q above below =
      let a = not_above n cent (omega arith) in
      let b = not_below n cent (omega arith) in omega arith

  one_sixth : (k : ℕ) → 1 ≤ k → percent r k (6 * k) ≡ 1667
  unfolding percent unit cent
  one_sixth k h =
      ap (λ q. round_div q cent) (sixth k unit 16666666666666666667 h (omega arith) (omega arith))
      ∙ hundredths 16666666666666666667 1667 (omega arith) (omega arith)

  four_sixths : (k : ℕ) → 1 ≤ k → percent r (4 * k) (6 * k) ≡ 6667
  unfolding percent unit cent
  four_sixths k h =
      let reordered : 4 * k * unit ≡ k * (4 * unit) = omega arith in
      ap (λ n. round_div (round_div n (6 * k)) cent) reordered
      ∙ ap (λ q. round_div q cent)
          (sixth k (4 * unit) 66666666666666666667 h (omega arith) (omega arith))
      ∙ hundredths 66666666666666666667 6667 (omega arith) (omega arith)

-- Where nobody abstains, as many vote yes as no, and four times as many no with veto, the
-- percentages are rounded up to 16.67, 16.67 and 66.67, and that of the abstentions is minus 0.01.
pub abstain_negative :
    (r : Rounding) (proposal : GovProposal) (k : ℕ)
    → 1 ≤ k
    → proposal.final_tally_result ≡ record { yes = k; no = k; no_with_veto = 4 * k; abstain = 0 }
    → (get_voting_percent r (some proposal)).abstain ≡ negsuc 0
unfolding get_voting_percent sub
abstain_negative r proposal k h e =
    let total : total_of proposal.final_tally_result ≡ 6 * k = ap total_of e ∙ omega arith in
    let some_votes : (total_of proposal.final_tally_result == 0) ≡ false = grind arith in
    let summed : k + k + 4 * k + 0 ≡ 6 * k = omega arith in
    let abstained = ap (λ t. t.abstain) e in
    let yes = ap (λ t. t.yes) e in
    let no = ap (λ t. t.no) e in
    let veto = ap (λ t. t.no_with_veto) e in
    rw (some_votes, yes, no, veto, abstained, summed, one_sixth r k h, four_sixths r k h) refl
