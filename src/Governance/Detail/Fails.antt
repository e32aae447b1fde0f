-- ===== src/Governance/Detail/Fails.antt =====
-- Which proposals cannot be shown.
use dymension_rollapp_block.Common.{
  ℕ, ◌≡◌, ◌↔◌, ◌⊎◌, inl, inr, refl, Option, none, some, List, [], ◌∷◌, arith, Option-cases,
}
use dymension_rollapp_block.Common.Text.{Str}
use dymension_rollapp_block.Common.Dict.{Dict, get}
use dymension_rollapp_block.Common.Locale.{Locale}
use dymension_rollapp_block.Store.State.{DenomMetadata}
use dymension_rollapp_block.Governance.{
  GovProposal, ProposalMessage, proposal_status_display, get_proposal_title,
}
use dymension_rollapp_block.Governance.Tally.{Rounding, ℤ}
use dymension_rollapp_block.Governance.Detail.{
  proposal_status_text, governance_detail, proposal_item,
}

status_fails_iff :
    (locale : Locale) (status : Str)
    → (proposal_status_text locale status ≡ none) ↔ (get proposal_status_display status ≡ none)
unfolding proposal_status_text
status_fails_iff locale status = elim (Option-cases (get proposal_status_display status)) [
  | inl missing ↦ rw missing ((λ e. refl), (λ e. refl))
  | inr (s, found) ↦ rw found ((λ e. absurd (ground arith)), (λ e. absurd (ground arith)))
]

title_fails_iff :
    (proposal : GovProposal) (messages : List ProposalMessage)
    → proposal.messages ≡ messages
    → (get_proposal_title (some proposal) ≡ none) ↔ (messages ≡ [])
unfolding get_proposal_title
title_fails_iff proposal [] e = rw e ((λ h. refl), (λ h. refl))
title_fails_iff proposal (m ∷ messages) e =
    rw e ((λ h. absurd (ground arith)), (λ h. absurd (ground arith)))

something : {A : Type 0} (a : A) → (some a ≡ none) → ⊥
something a e = ground arith

both :
    {A B : Type 0} {o : Option A} {p : Option B} (a : A) (b : B)
    → o ≡ some a
    → p ≡ some b
    → ((o ≡ none) ⊎ (p ≡ none))
    → ⊥
both a b e f c = ground arith

module _ (locale : Locale) (format : Str → ℕ → Str) (time : ℕ → Str) (r : Rounding)
    (shown : ℤ → Str) where
  detail_fails_iff :
      (denoms_metadata : Dict DenomMetadata) (proposal : GovProposal)
      → (governance_detail locale format time r shown proposal.id denoms_metadata proposal ≡ none)
        ↔ ((get_proposal_title (some proposal) ≡ none)
            ⊎ (proposal_status_text locale proposal.status ≡ none))
  unfolding governance_detail
  detail_fails_iff denoms_metadata proposal =
      elim (Option-cases (get_proposal_title (some proposal))) [
        | inl t ↦ ((λ e. inl t), λ c. rw (t, governance_detail) refl)
        | inr (title, t) ↦ elim (Option-cases (proposal_status_text locale proposal.status)) [
          | inl s ↦ ((λ e. inr s), λ c. rw (t, s, governance_detail) refl)
          | inr (status, s) ↦ (
            (λ e. absurd (something _ (rw (t, s, governance_detail) at e))),
            λ c. absurd (both title status t s c),
          )
        ]
      ]

  item_fails_iff :
      (pathname : Str) (proposal : GovProposal)
      → (proposal_item locale format time r shown pathname proposal ≡ none) ↔ (
          (get_proposal_title (some proposal) ≡ none)
          ⊎ (proposal_status_text locale proposal.status ≡ none))
  unfolding proposal_item
  item_fails_iff pathname proposal = elim (Option-cases (get_proposal_title (some proposal))) [
    | inl t ↦ ((λ e. inl t), λ c. rw (t, proposal_item) refl)
    | inr (title, t) ↦ elim (Option-cases (proposal_status_text locale proposal.status)) [
      | inl s ↦ ((λ e. inr s), λ c. rw (t, s, proposal_item) refl)
      | inr (status, s) ↦ (
        (λ e. absurd (something _ (rw (t, s, proposal_item) at e))),
        λ c. absurd (both title status t s c),
      )
    ]
  ]

-- The page of a proposal and its item in the list of proposals throw for the same proposals: those
-- that have no messages, and those whose state has no text.
pub proposal_fails_iff :
    (locale : Locale) (format : Str → ℕ → Str) (time : ℕ → Str) (r : Rounding) (shown : ℤ → Str)
    (denoms_metadata : Dict DenomMetadata) (pathname : Str) (proposal : GovProposal)
    → ((governance_detail locale format time r shown proposal.id denoms_metadata proposal ≡ none)
        ↔ ((proposal.messages ≡ []) ⊎ (get proposal_status_display proposal.status ≡ none)))
      × ((proposal_item locale format time r shown pathname proposal ≡ none)
          ↔ ((proposal.messages ≡ []) ⊎ (get proposal_status_display proposal.status ≡ none)))
proposal_fails_iff locale format time r shown denoms_metadata pathname proposal =
    let (no_title, untitled) = title_fails_iff proposal proposal.messages refl in
    let (no_text, unnamed) = status_fails_iff locale proposal.status in
    let cause : (get_proposal_title (some proposal) ≡ none)
          ⊎ (proposal_status_text locale proposal.status ≡ none)
        → (proposal.messages ≡ []) ⊎ (get proposal_status_display proposal.status ≡ none) =
      λ c. elim c [ inl t ↦ inl (no_title t) | inr s ↦ inr (no_text s) ] in
    let effect : (proposal.messages ≡ []) ⊎ (get proposal_status_display proposal.status ≡ none)
        → (get_proposal_title (some proposal) ≡ none)
          ⊎ (proposal_status_text locale proposal.status ≡ none) =
      λ c. elim c [ inl t ↦ inl (untitled t) | inr s ↦ inr (unnamed s) ] in
    let (d, e) = detail_fails_iff locale format time r shown denoms_metadata proposal in
    let (i, j) = item_fails_iff locale format time r shown pathname proposal in
    (((λ h. cause (d h)), (λ c. e (effect c))), ((λ h. cause (i h)), (λ c. j (effect c))))
