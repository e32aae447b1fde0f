-- ===== src/Governance.antt =====
-- The proposals of a RollApp: web-app/src/utils/proposal.ts, web-app/src/utils/governance.ts,
-- web-app/src/consts/proposal.ts and the lists and tallies of
-- web-app/src/components/client/governance.
pub mod Tally
pub mod Proposals
pub mod Detail
use dymension_rollapp_block.Common.{ℕ, Option, none, some, List, [], ◌∷◌}
use dymension_rollapp_block.Common.Text.{Str, text, ◌===◌}
use dymension_rollapp_block.Common.Dict.{Dict, get}

-- `finalTallyResult`: amounts of votes, which are whole numbers
pub record TallyResult : Type 0 where
  pub yes : ℕ
  pub no : ℕ
  pub no_with_veto : ℕ
  pub abstain : ℕ

-- `protoContent`: the name of a plan, and the title of a content, where it has one
pub record ProtoContent : Type 0 where
  pub plan : Option (Option Str)
  pub content : Option (Option Str)

pub record ProposalMessage : Type 0 where
  pub proto_content : ProtoContent
  pub type_ : Str

-- `GovProposal` of consts/rpcResTypes.ts, as far as it is read. The times are in seconds, and
-- `messages_text` is the messages as JSON.
pub record GovProposal : Type 0 where
  pub id : ℕ
  pub messages : List ProposalMessage
  pub messages_text : Str
  pub metadata : Str
  pub status : Str
  pub final_tally_result : TallyResult
  pub total_deposit : Dict Str
  pub deposit_end_time_epoch_utc : ℕ
  pub voting_start_time_epoch_utc : ℕ
  pub voting_end_time_epoch_utc : ℕ

-- `get(protoContent, …, '')`
abbrev pub or_empty : Option Str → Str
or_empty none = []
or_empty (some s) = s

abbrev title_of_content : Option (Option Str) → Str
title_of_content none = []
title_of_content (some title) = or_empty title

-- An empty name gives way to the title of the content.
abbrev title_of : ProtoContent → Str
title_of c = elim c.plan [
  | none ↦ title_of_content c.content
  | some name ↦ elim (or_empty name) [ [] ↦ title_of_content c.content | x ∷ xs ↦ x ∷ xs ]
]

-- `none` is the exception for a proposal without messages.
unfoldable pub get_proposal_title : Option GovProposal → Option Str
get_proposal_title none = some []
get_proposal_title (some proposal) = elim proposal.messages [
  | [] ↦ none
  | m ∷ _ ↦ some (title_of m.proto_content)
]

unfoldable pub voting_period : Str
voting_period = text "PROPOSAL_STATUS_VOTING_PERIOD"

unfoldable pub status_colors : Dict Str
unfolding voting_period
status_colors =
    (text "PROPOSAL_STATUS_REJECTED", text "error.main")
    ∷ (text "PROPOSAL_STATUS_PASSED", text "success.main")
    ∷ (text "PROPOSAL_STATUS_FAILED", text "grey")
    ∷ (voting_period, text "info.main")
    ∷ (text "PROPOSAL_STATUS_DEPOSIT_PERIOD", text "warning.main")
    ∷ []

unfoldable pub get_proposal_status_color : Str → Str
unfolding get status_colors
get_proposal_status_color status = elim (get status_colors status) [
  | none ↦ text "text.primary"
  | some color ↦ color
]

unfoldable pub proposal_status_display : Dict Str
unfolding voting_period
proposal_status_display =
    (text "PROPOSAL_STATUS_UNSPECIFIED", text "Unspecified")
    ∷ (text "PROPOSAL_STATUS_DEPOSIT_PERIOD", text "Depositing Period")
    ∷ (voting_period, text "Voting Period")
    ∷ (text "PROPOSAL_STATUS_PASSED", text "Passed")
    ∷ (text "PROPOSAL_STATUS_REJECTED", text "Rejected")
    ∷ (text "PROPOSAL_STATUS_FAILED", text "Failed")
    ∷ (text "UNRECOGNIZED", text "Unrecognized")
    ∷ []
