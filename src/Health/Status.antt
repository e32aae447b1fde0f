-- ===== src/Health/Status.antt =====
-- The status is that of the chain that is furthest behind.
use dymension_rollapp_block.Common.{
  ℕ, ◌≤◌, ◌<◌, ◌≡◌, ◌↔◌, refl, List, [], ◌∷◌, ltb, arith, if◌then◌else◌,
}
use dymension_rollapp_block.Health.{IndexingFallbehindChain, status_from, get_status}

-- How far the chain that is furthest behind is behind.
abbrev pub furthest : ℕ → ℕ → ℕ
furthest a b = if ltb a b then b else a

unfoldable pub worst : List IndexingFallbehindChain → ℕ
worst [] = 0
worst (r ∷ result) = let rest = worst result in furthest r.epoch_diff rest

status_from-worst :
    (status : ℕ) (result : List IndexingFallbehindChain)
    → status_from status result
      ≡ (if ltb 7200 (worst result) then 530 else if ltb 3610 (worst result) then 503 else status)
unfolding status_from worst
status_from-worst status [] = refl
status_from-worst status (r ∷ result) =
    ground (arith, status_from-worst status result, status_from-worst 503 result)

-- The status of the health check depends on the chain that is furthest behind: 200 where it is at
-- most 3610 seconds behind, 503 where it is at most 7200, and 530 where it is more, in whichever
-- order the chains are listed.
pub status_of_worst :
    (result : List IndexingFallbehindChain)
    → ((worst result ≤ 3610) ↔ (get_status result ≡ 200))
      × (((3610 < worst result) × (worst result ≤ 7200)) ↔ (get_status result ≡ 503))
      × ((7200 < worst result) ↔ (get_status result ≡ 530))
unfolding get_status
status_of_worst result =
    let e = status_from-worst 200 result in (ground arith, ground arith, ground arith)
