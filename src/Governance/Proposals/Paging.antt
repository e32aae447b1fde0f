-- ===== src/Governance/Proposals/Paging.antt =====
-- What the page of the proposals shows beside the items themselves: GovernanceList.tsx in
-- web-app/src/components/client/governance.
use dymension_rollapp_block.Common.{
  ℕ, ◌≡◌, refl, Bool, true, false, Option, some, List, [], ◌∷◌, ◌==◌, Member, here, All, All-member,
}
use dymension_rollapp_block.Common.Text.{Str, text}
use dymension_rollapp_block.Governance.{GovProposal, voting_period}
use dymension_rollapp_block.Governance.Proposals.{governance_list, proposals_divided}

abbrev pub proposals_page_size : ℕ
proposals_page_size = 20

-- A number of skeletons, the items, or a text.
pub data ListContent : Type 0 where
  of_skeletons : ℕ → ListContent
  of_items : List GovProposal → ListContent
  of_text : Str → ListContent

unfoldable pub list_content :
    (loading : Bool) (skeletons : ℕ) (no_items : Str) → List GovProposal → ListContent
list_content true skeletons no_items proposals = of_skeletons skeletons
list_content false skeletons no_items [] = of_text no_items
list_content false skeletons no_items (p ∷ proposals) = of_items (p ∷ proposals)

-- `!allProposals.length || allProposals[allProposals.length - 1].id === 1`
unfoldable pub next_disabled : List GovProposal → Bool
next_disabled [] = true
next_disabled (p ∷ []) = p.id == 1
next_disabled (p ∷ q ∷ proposals) = next_disabled (q ∷ proposals)

pub record ProposalsView : Type 0 where
  pub live : ListContent
  pub others : ListContent
  pub page : ℕ
  pub is_next_disabled : Bool

-- `gov_proposals` and `loading` are what `useGovProposals(page + 1)` gives.
unfoldable pub governance_list_view :
    (page : ℕ) (gov_proposals : Option (List GovProposal)) (loading : Bool) → ProposalsView
unfolding governance_list list_content next_disabled
governance_list_view page gov_proposals loading =
    let (live, others) = governance_list gov_proposals in
    record {
      live = list_content loading 3 (text "There is currently no live proposal") live;
      others = list_content loading proposals_page_size (text "No data") others;
      page = page;
      is_next_disabled = next_disabled others;
    }

no_member : (ps : List GovProposal) → ((p : GovProposal) → Member p ps → ⊥) → ps ≡ []
no_member [] h = refl
no_member (p ∷ ps) h = absurd (h p here)

-- Where every proposal that the server gives for a page is in its voting period, the page shows no
-- other proposal and its button for the next page is disabled, whichever page it is.
pub live_page_stuck :
    (page : ℕ) (proposals : List GovProposal)
    → All (λ p. p.status ≡ voting_period) proposals
    → let view = governance_list_view page (some proposals) false in
      (view.others ≡ of_text (text "No data")) × (view.is_next_disabled ≡ true)
unfolding governance_list_view list_content next_disabled
live_page_stuck page proposals h =
    let (_, others, _, _) = proposals_divided proposals in
    let empty : (governance_list (some proposals)).1 ≡ [] =
      no_member (governance_list (some proposals)).1 (λ p m.
        let (n, other) = (others p).0 m in
        other (All-member (λ p. p.status ≡ voting_period) p proposals h n)) in
    rw empty (refl, refl)
