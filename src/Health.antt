-- ===== src/Health.antt =====
-- web-app/src/app/api/health/indexing-fallbehind-chains/route.ts: the status of the health check. The
-- database's rows, cached for ten seconds, are a parameter.
pub mod Status
use dymension_rollapp_block.Common.{ℕ, Bool, List, [], ◌∷◌, ltb, if◌then◌else◌}

-- `epoch_diff`: how many seconds the indexing of a chain is behind. One that is negative is as 0.
pub record IndexingFallbehindChain : Type 0 where
  pub epoch_diff : ℕ

-- The loop, at a status: it ends at the first chain that is more than 7200 seconds behind.
unfoldable pub status_from : ℕ → List IndexingFallbehindChain → ℕ
status_from status [] = status
status_from status (r ∷ result) =
    let rest = status_from status result in
    let rest' = status_from 503 result in
    if ltb 7200 r.epoch_diff then 530 else if ltb 3610 r.epoch_diff then rest' else rest

unfoldable pub get_status : List IndexingFallbehindChain → ℕ
unfolding status_from
get_status result = status_from 200 result
