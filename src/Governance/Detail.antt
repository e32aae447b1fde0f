-- ===== src/Governance/Detail.antt =====
-- What the page of a proposal and the item of a proposal in the list show: GovernanceDetail.tsx,
-- GovernanceItem.tsx and ProposalStatusText.tsx in web-app/src/components/client/governance. `format`
-- stands for `formatBlockchainAmount` and `time` for `formatUnixTime`, of the packages `big.js` and
-- `dayjs`, and `shown` for `formatNumber` of a percentage.
pub mod Fails
use dymension_rollapp_block.Common.{
  ℕ, zero, suc, Bool, true, false, Option, none, some, List, [], ◌∷◌, ◌++◌, map, ◌==◌,
  if◌then◌else◌,
}
use dymension_rollapp_block.Common.Text.{Str, text, ◌===◌}
use dymension_rollapp_block.Common.Decimal.{to_string}
use dymension_rollapp_block.Common.Dict.{Dict, get}
use dymension_rollapp_block.Common.Locale.{Locale}
use dymension_rollapp_block.Store.State.{DenomMetadata}
use dymension_rollapp_block.Pathname.{get_new_path_by_rollapp}
use dymension_rollapp_block.Format.{get_prototype_from_type_url}
use dymension_rollapp_block.Table.Transactions.{distinct}
use dymension_rollapp_block.Governance.{
  GovProposal, ProposalMessage, voting_period, get_proposal_title, get_proposal_status_color,
  proposal_status_display,
}
use dymension_rollapp_block.Governance.Tally.{
  Rounding, VotingPercent, ℤ, pos, get_voting_percent, get_linear_gradient_percent,
}

-- `isVoting` is whether a spinner stands before the text.
pub record StatusText : Type 0 where
  pub color : Str
  pub is_voting : Bool
  pub shown : Str

pub record VoteChip : Type 0 where
  pub label : Str
  pub share : Str
  pub is_filled : Bool

pub record ProposalDetail : Type 0 where
  pub title : Str
  pub status : Option StatusText
  pub voting_result : List VoteChip
  pub deposit_end_time : Option Str
  pub total_deposit : List Str
  pub voting_start_time : Option Str
  pub voting_end_time : Option Str
  pub metadata : Option Str
  pub message : Option Str

pub record ProposalItem : Type 0 where
  pub href : Str
  pub status : StatusText
  pub types : List Str
  pub title : Str
  pub voting_end : Str
  pub gradient : List ℕ

abbrev pub is_max : Option ℕ → ℕ → Bool
is_max none n = false
is_max (some m) n = m == n

unfoldable pub type_of_message : ProposalMessage → Str
type_of_message m = m.type_

module _ (locale : Locale) where
  -- A state that has no text is an exception (`none`).
  unfoldable pub proposal_status_text : (status : Str) → Option StatusText
  unfolding get_proposal_status_color proposal_status_display voting_period get ◌===◌
  proposal_status_text status = elim (get proposal_status_display status) [
    | none ↦ none
    | some shown ↦ some (record {
      color = get_proposal_status_color status;
      is_voting = status === voting_period;
      shown = locale.to_upper_case shown;
    })
  ]

  module _ (format : Str → ℕ → Str) where
    unfoldable pub deposit_balance : Dict DenomMetadata → (denom balance : Str) → Str
    unfolding get
    deposit_balance denoms_metadata denom balance = elim (get denoms_metadata denom) [
      | none ↦ format balance 0 ++ b' ' ∷ locale.to_upper_case denom
      | some m ↦ format balance m.highest_exponent ++ b' ' ∷ m.symbol
    ]

    unfoldable pub deposit_balances : Dict DenomMetadata → Dict Str → List Str
    unfolding deposit_balance
    deposit_balances denoms_metadata [] = []
    deposit_balances denoms_metadata ((denom, balance) ∷ total_deposit) =
        deposit_balance denoms_metadata denom balance
        ∷ deposit_balances denoms_metadata total_deposit

module _ (r : Rounding) (shown : ℤ → Str) where
  unfoldable pub get_voting_result : Option GovProposal → List VoteChip
  unfolding get_voting_percent
  get_voting_result none = []
  get_voting_result (some proposal) =
      let v = get_voting_percent r (some proposal) in
      let chip : ℕ → Str → ℤ → VoteChip = λ i label percent. record {
        label = label;
        share = shown percent ++ text "%";
        is_filled = is_max v.max_id i;
      } in
      chip 0 (text "Yes") (pos v.yes)
      ∷ chip 1 (text "No") (pos v.no)
      ∷ chip 2 (text "No with veto") (pos v.no_with_veto)
      ∷ chip 3 (text "Abstain") v.abstain
      ∷ []

-- `proposalTitle && '. ' + proposalTitle`
abbrev pub behind_dot : Str → Str
behind_dot [] = []
behind_dot (c ∷ s) = text ". " ++ c ∷ s

module _ (locale : Locale) (format : Str → ℕ → Str) (time : ℕ → Str) (r : Rounding)
    (shown : ℤ → Str) where
  -- The page, once the proposal is there; `none` is an exception.
  unfoldable pub governance_detail :
      (id : ℕ) → Dict DenomMetadata → GovProposal → Option ProposalDetail
  unfolding get_proposal_title proposal_status_text get_voting_result deposit_balances to_string
  governance_detail id denoms_metadata proposal = elim (get_proposal_title (some proposal)) [
    | none ↦ none
    | some title ↦ elim (proposal_status_text locale proposal.status) [
      | none ↦ none
      | some status ↦ some (record {
        title = b'#' ∷ to_string id ++ behind_dot title;
        status = some status;
        voting_result = get_voting_result r shown (some proposal);
        deposit_end_time = some (time proposal.deposit_end_time_epoch_utc);
        total_deposit = deposit_balances locale format denoms_metadata proposal.total_deposit;
        voting_start_time = some (time proposal.voting_start_time_epoch_utc);
        voting_end_time = some (time proposal.voting_end_time_epoch_utc);
        metadata = some proposal.metadata;
        message = some proposal.messages_text;
      })
    ]
  ]

  -- An item of the list; `none` is an exception.
  unfoldable pub proposal_item : (pathname : Str) → GovProposal → Option ProposalItem
  unfolding get_proposal_title proposal_status_text get_new_path_by_rollapp to_string distinct
      get_prototype_from_type_url get_linear_gradient_percent type_of_message
  proposal_item pathname proposal = elim (get_proposal_title (some proposal)) [
    | none ↦ none
    | some title ↦ elim (proposal_status_text locale proposal.status) [
      | none ↦ none
      | some status ↦ some (record {
        href = get_new_path_by_rollapp pathname (text "/proposal") ++ b'/' ∷ to_string proposal.id;
        status = status;
        types =
            map get_prototype_from_type_url (distinct [] (map type_of_message proposal.messages));
        title = b'#' ∷ to_string proposal.id ++ b' ' ∷ title;
        voting_end = time proposal.voting_end_time_epoch_utc;
        gradient = get_linear_gradient_percent r proposal.final_tally_result;
      })
    ]
  ]
