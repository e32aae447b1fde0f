-- ===== src/Tests/Governances.antt =====
-- Three proposals and their votes.
use dymension_rollapp_block.Common.{
  ℕ, ◌+◌, ◌*◌, ◌/◌, ◌≤◌, ◌<◌, ◌≡◌, ◌≢◌, ◌↔◌, ◌⊎◌, refl, Bool, true, false, none, some, [], ◌∷◌, map,
  ◌==◌, Member, arith,
}
use dymension_rollapp_block.Common.Text.{Str, text}
use dymension_rollapp_block.Common.Decimal.{to_string}
use dymension_rollapp_block.Common.Dict.{get}
use dymension_rollapp_block.Common.Locale.{ascii}
use dymension_rollapp_block.Governance.Detail.{get_voting_result, governance_detail, proposal_item}
use dymension_rollapp_block.Governance.Detail.Fails.{proposal_fails_iff}
use dymension_rollapp_block.Governance.{
  proposal_status_display, TallyResult, GovProposal, voting_period,
}
use dymension_rollapp_block.Governance.Tally.{Rounding, total_of}
use dymension_rollapp_block.Governance.Tally.Leader.{IsLeader, filled_chip}
use dymension_rollapp_block.Governance.Proposals.Paging.{
  of_text, governance_list_view, live_page_stuck,
}
use dymension_rollapp_block.Governance.Proposals.{IsFalling, governance_list, proposals_divided}

below : (m d : ℕ) → 1 ≤ d → d * (m / d) ≤ m
below m d h = grind arith

above : (m d : ℕ) → 1 ≤ d → m < d * (m / d) + d
above m d h = grind arith

quotient_above : (n d : ℕ) → 1 ≤ d → 2 * d * ((2 * n + d) / (2 * d)) ≤ 2 * n + d
quotient_above n d h = below (2 * n + d) (2 * d) (omega arith)

quotient_below : (n d : ℕ) → 1 ≤ d → 2 * n + d < 2 * d * ((2 * n + d) / (2 * d)) + 2 * d
quotient_below n d h = above (2 * n + d) (2 * d) (omega arith)

abbrev half_up : Rounding
half_up = record {
  round_div = λ n d. (2 * n + d) / (2 * d);
  not_above = quotient_above;
  not_below = quotient_below;
}

abbrev close_votes : TallyResult
close_votes = record { yes = 5; no = 5; no_with_veto = 4 * 5; abstain = 0 }

abbrev live : GovProposal
live = record {
  id = 3;
  messages = [];
  messages_text = [];
  metadata = [];
  total_deposit = [];
  deposit_end_time_epoch_utc = 0;
  voting_start_time_epoch_utc = 0;
  voting_end_time_epoch_utc = 0;
  status = text "PROPOSAL_STATUS_VOTING_PERIOD";
  final_tally_result = close_votes;
}

abbrev rejected : GovProposal
rejected = record {
  id = 8;
  messages = [];
  messages_text = [];
  metadata = [];
  total_deposit = [];
  deposit_end_time_epoch_utc = 0;
  voting_start_time_epoch_utc = 0;
  voting_end_time_epoch_utc = 0;
  status = text "PROPOSAL_STATUS_REJECTED";
  final_tally_result = close_votes;
}

filled_chip_example :
    (m : ℕ) × IsLeader (5 ∷ 5 ∷ 4 * 5 ∷ 0 ∷ []) m
    × (map {B = Str × Bool}
          (λ c. (c.label, c.is_filled))
          (get_voting_result half_up (λ z. []) (some live))
        ≡ (text "Yes", m == 0)
          ∷ (text "No", m == 1)
          ∷ (text "No with veto", m == 2)
          ∷ (text "Abstain", m == 3)
          ∷ [])
unfolding total_of
filled_chip_example = filled_chip half_up (λ z. []) live (omega arith)

proposals_divided_example :
    let shown = governance_list (some (live ∷ rejected ∷ [])) in
    ((p : GovProposal)
      → Member p shown.0 ↔ (Member p (live ∷ rejected ∷ []) × (p.status ≡ voting_period)))
    × ((p : GovProposal)
        → Member p shown.1 ↔ (Member p (live ∷ rejected ∷ []) × (p.status ≢ voting_period)))
    × IsFalling shown.0
    × IsFalling shown.1
proposals_divided_example = proposals_divided (live ∷ rejected ∷ [])

proposal_fails_iff_example :
    ((governance_detail ascii (λ s d. s) to_string half_up (λ z. []) live.id [] live ≡ none)
      ↔ ((live.messages ≡ []) ⊎ (get proposal_status_display live.status ≡ none)))
    × ((proposal_item ascii (λ s d. s) to_string half_up (λ z. []) (text "/nim") live ≡ none)
        ↔ ((live.messages ≡ []) ⊎ (get proposal_status_display live.status ≡ none)))
proposal_fails_iff_example =
    proposal_fails_iff ascii (λ s d. s) to_string half_up (λ z. []) [] (text "/nim") live

live_page_stuck_example :
    let view = governance_list_view 2 (some (live ∷ [])) false in
    (view.others ≡ of_text (text "No data")) × (view.is_next_disabled ≡ true)
unfolding voting_period
live_page_stuck_example = live_page_stuck 2 (live ∷ []) (refl, tt)
