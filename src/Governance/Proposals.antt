-- ===== src/Governance/Proposals.antt =====
-- The two lists of proposals, web-app/src/components/client/governance/GovernanceList.tsx.
pub mod Paging
use Prim.Native.Nat.{Ordering}
use dymension_rollapp_block.Common.{
  All, ◌≤◌, ◌≡◌, ◌≢◌, ◌↔◌, refl, ap, ◌∙◌, Option, none, some, List, [], ◌∷◌, ◌++◌, append_assoc,
  append-nil, All-member, All-of_member, Member, Bool, true, not, filter, member-filter_iff,
  if◌then◌else◌, arith, Bool-cases, inl, inr,
}
use dymension_rollapp_block.Common.Text.{◌===◌, ===_iff}
use dymension_rollapp_block.Common.Sort.{
  sort, IsSorted, Le, sort-IsSorted, member_of_sort, sort_of_member,
}
use dymension_rollapp_block.Governance.{GovProposal, voting_period}

-- `b.id - a.id`
unfoldable pub by_id : GovProposal → GovProposal → Ordering
by_id a b = Prim.Native.Nat.compare b.id a.id

unfoldable pub is_live : GovProposal → Bool
unfolding ◌===◌ voting_period
is_live proposal = proposal.status === voting_period

-- The callback of `reduce`, from the two lists so far.
unfoldable pub divide :
    (live others proposals : List GovProposal) → List GovProposal × List GovProposal
unfolding is_live
divide live others [] = (live, others)
divide live others (proposal ∷ proposals) =
    let if_live = divide (live ++ (proposal ∷ [])) others proposals in
    let if_other = divide live (others ++ (proposal ∷ [])) proposals in
    if is_live proposal then if_live else if_other

-- `none` is a list that is not there yet.
unfoldable pub governance_list : Option (List GovProposal) → List GovProposal × List GovProposal
unfolding by_id divide
governance_list none = ([], [])
governance_list (some proposals) = divide [] [] (sort by_id proposals)

divide_lem :
    (proposals live others : List GovProposal)
    → divide live others proposals
      ≡ (live ++ filter is_live proposals, others ++ filter (λ p. not (is_live p)) proposals)
unfolding divide
divide_lem [] live others = rw (append-nil live, append-nil others) refl
divide_lem (p ∷ proposals) live others = elim (Bool-cases (is_live p)) [
  | inl h ↦ rw h (
      divide_lem proposals (live ++ (p ∷ [])) others
      ∙ ap (λ r. (r, others ++ filter (λ q. not (is_live q)) proposals))
          (append_assoc live (p ∷ []) (filter is_live proposals)))
  | inr h ↦ rw h (
      divide_lem proposals live (others ++ (p ∷ []))
      ∙ ap (λ r. (live ++ filter is_live proposals, r))
          (append_assoc others (p ∷ []) (filter (λ q. not (is_live q)) proposals)))
]

by_id_total : (a b : GovProposal) → by_id a b ≡ Ordering.gt → Le by_id b a
unfolding by_id
by_id_total a b h = grind arith

by_id_trans : (a b c : GovProposal) → Le by_id a b → Le by_id b c → Le by_id a c
unfolding by_id
by_id_trans a b c h k = grind arith

module _ (keeps : GovProposal → Bool) where
  filter-IsSorted : (ps : List GovProposal) → IsSorted by_id ps → IsSorted by_id (filter keeps ps)
  filter-IsSorted [] sorted = tt
  filter-IsSorted (p ∷ ps) (below, sorted) =
      let kept =
        All-of_member (Le by_id p) (filter keeps ps)
          (λ q m. All-member (Le by_id p) q ps below ((member-filter_iff keeps q ps).0 m).0) in
      let rest = filter-IsSorted ps sorted in
      elim (Bool-cases (keeps p)) [ inl h ↦ rw h (kept, rest) | inr h ↦ rw h rest ]

  kept_iff :
      (p : GovProposal) (ps : List GovProposal)
      → Member p (filter keeps (sort by_id ps)) ↔ (Member p ps × (keeps p ≡ true))
  kept_iff p ps = (
    (λ m.
        let (n, h) = (member-filter_iff keeps p (sort by_id ps)).0 m in
        (member_of_sort by_id p ps n, h)),
    λ (n, h). (member-filter_iff keeps p (sort by_id ps)).1 (sort_of_member by_id p ps n, h),
  )

live_iff : (p : GovProposal) → (is_live p ≡ true) ↔ (p.status ≡ voting_period)
unfolding is_live
live_iff p = ===_iff p.status voting_period

other_iff : (p : GovProposal) → (not (is_live p) ≡ true) ↔ (p.status ≢ voting_period)
other_iff p = elim (Bool-cases (is_live p)) [
  | inl h ↦ ((λ k. ground arith), λ n. absurd (n ((live_iff p).0 h)))
  | inr h ↦ ((λ k e. ground (arith, live_iff p)), λ n. rw h refl)
]

-- The ids fall.
abbrev pub IsFalling : List GovProposal → Type 0
IsFalling [] = Unit
IsFalling (p ∷ ps) = All (λ q. q.id ≤ p.id) ps × IsFalling ps

below-le : (p q : GovProposal) → Le by_id p q → q.id ≤ p.id
unfolding by_id
below-le p q h = grind arith

sorted-IsFalling : (ps : List GovProposal) → IsSorted by_id ps → IsFalling ps
sorted-IsFalling [] h = tt
sorted-IsFalling (p ∷ ps) (below, h) = (
  All-of_member (λ q. q.id ≤ p.id) ps (λ q m. below-le p q (All-member (Le by_id p) q ps below m)),
  sorted-IsFalling ps h,
)

-- The lists of the page: the live proposals are those in their voting period, and the others are
-- those that are not. Each of the two is in the order of falling ids.
pub proposals_divided :
    (proposals : List GovProposal)
    → let shown = governance_list (some proposals) in
      ((p : GovProposal) → Member p shown.0 ↔ (Member p proposals × (p.status ≡ voting_period)))
      × ((p : GovProposal) → Member p shown.1 ↔ (Member p proposals × (p.status ≢ voting_period)))
      × IsFalling shown.0
      × IsFalling shown.1
unfolding governance_list
proposals_divided proposals =
    let by_ids = sort-IsSorted by_id by_id_total by_id_trans proposals in
    let other : GovProposal → Bool = λ p. not (is_live p) in
    rw (divide_lem (sort by_id proposals) [] []) (
      (λ p. (
        (λ m. let (n, h) = (kept_iff is_live p proposals).0 m in (n, (live_iff p).0 h)),
        λ (n, h). (kept_iff is_live p proposals).1 (n, (live_iff p).1 h),
      )),
      (λ p. (
        (λ m. let (n, h) = (kept_iff other p proposals).0 m in (n, (other_iff p).0 h)),
        λ (n, h). (kept_iff other p proposals).1 (n, (other_iff p).1 h),
      )),
      sorted-IsFalling _ (filter-IsSorted is_live (sort by_id proposals) by_ids),
      sorted-IsFalling _ (filter-IsSorted other (sort by_id proposals) by_ids),
    )
