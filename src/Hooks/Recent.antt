-- ===== src/Hooks/Recent.antt =====
-- web-app/src/hooks/useRecentBlocks.ts and web-app/src/hooks/useLatestBlock.ts: the blocks of a page,
-- and the number of the latest block. A page counts from 0, and the first page has the latest blocks.
pub mod Fallback
use dymension_rollapp_block.Common.{
  ℕ, zero, suc, ◌+◌, ◌-◌, ◌*◌, Bool, true, false, Option, none, some, List, [], ◌∷◌, ◌++◌, map,
  length, ltb, min, if◌then◌else◌,
}
use dymension_rollapp_block.Common.Text.{Str, text}
use dymension_rollapp_block.Rpc.Service.{RpcResponse, Response, Answer, value, error_of}
use dymension_rollapp_block.Hooks.Attempt.{Reply, Attempt, got, fails, ◌>>=◌, fetch, fetch_all}

-- `RecentBlock`, and the fields of `Block` that make one. The transactions are known by their
-- hashes, and a proposer may be missing.
pub record Proposer : Type 0 where
  pub consensus_address : Str
  pub moniker : Str

pub record RecentBlock : Type 0 where
  pub height : ℕ
  pub hash : Str
  pub time_epoch_utc : ℕ
  pub txs_count : ℕ
  pub proposer : Option Proposer

pub record Block : Type 0 where
  pub height : ℕ
  pub hash : Str
  pub time_epoch_utc : ℕ
  pub txs : List Str
  pub proposer : Option Proposer

pub record RecentBlocks : Type 0 where
  pub blocks : List RecentBlock
  pub latest_block : ℕ

pub record LatestBlockNumber : Type 0 where
  pub latest_block : ℕ

abbrev pub reverse : {A : Type 0} → List A → List A
reverse [] = []
reverse (x ∷ xs) = reverse xs ++ x ∷ []

-- `Array.from(Array(n)).map((i, idx) => top - idx)`
unfoldable pub count_down : ℕ → ℕ → List ℕ
count_down top zero = []
count_down top (suc n) = top ∷ count_down (top - 1) n

-- The numbers of a page. The top of a page behind the last one is negative, and `Array` of a
-- negative length throws.
unfoldable pub block_numbers : (latest_block page page_size : ℕ) → Attempt (List ℕ)
unfolding count_down
block_numbers latest_block page page_size =
    if ltb latest_block (page * page_size)
    then fails false
    else let top = latest_block - page * page_size in got (count_down top (min top page_size))

-- `{ ...b, txsCount: b.txs.length }`; an answer `{ error }` has no `txs`, and its length throws.
unfoldable pub with_counts : List (Answer Block) → Attempt (List RecentBlock)
with_counts [] = got []
with_counts (error_of e ∷ blocks) = fails false
with_counts (value b ∷ blocks) = do
  rest ← with_counts blocks
  got (
      record {
        height = b.height;
        hash = b.hash;
        time_epoch_utc = b.time_epoch_utc;
        txs_count = length b.txs;
        proposer = b.proposer;
      }
      ∷ rest)

-- `undefined` cannot be destructured.
unfoldable pub required : {A : Type 0} → Option A → Attempt A
required none = fails false
required (some a) = got a

-- The three calls.
module _ (recent_blocks : Reply (RpcResponse RecentBlocks))
    (latest_block_number : Reply (RpcResponse LatestBlockNumber))
    (blocks_of : List ℕ → Reply (Response Block)) where
  -- The first `try` block.
  unfoldable pub fetch_recent : Attempt RecentBlocks
  unfolding fetch required
  fetch_recent = do
    result ← fetch recent_blocks
    recent ← required result
    got (record recent { blocks = reverse recent.blocks })

  -- The second `try` block.
  unfoldable pub fetch_by_number : (page page_size : ℕ) → Attempt RecentBlocks
  unfolding fetch required block_numbers fetch_all with_counts
  fetch_by_number page page_size = do
    result ← fetch latest_block_number
    latest ← required result
    numbers ← block_numbers latest.latest_block page page_size
    answers ← fetch_all (blocks_of numbers)
    blocks ← with_counts (reverse answers)
    got (record { blocks = blocks; latest_block = latest.latest_block })

  -- How a run of the effect ends.
  pub data Ended : Type 0 where
    shows : RecentBlocks → Ended
    throws : Str → Ended
    aborted : Ended

  unfoldable pub last_end : Attempt RecentBlocks → Ended
  last_end (got recent) = shows recent
  last_end (fails true) = aborted
  last_end (fails false) = throws (text "Failed to fetch Blocks")

  unfoldable pub use_recent_blocks : (page page_size : ℕ) → (use_fallback : Bool) → Ended
  unfolding fetch_recent fetch_by_number last_end
  use_recent_blocks page page_size use_fallback = elim fetch_recent [
    | got recent ↦ shows recent
    | fails is_abort ↦
        if is_abort
        then aborted
        else if use_fallback
        then last_end (fetch_by_number page page_size)
        else throws (text "Failed to fetch Recent Blocks")
  ]

-- How a run of `useLatestBlock` ends: a number is set, an error is thrown on, or neither.
pub data LatestBlock : Type 0 where
  sets : ℕ → LatestBlock
  throws_on : Str → LatestBlock
  keeps : LatestBlock

unfoldable pub use_latest_block :
    Reply (RpcResponse LatestBlockNumber)
    → (should_throw_error : Bool) → (latest_indexed_block : ℕ) → LatestBlock
unfolding fetch required
use_latest_block reply should_throw_error latest_indexed_block = elim (fetch reply >>= required) [
  | got latest ↦ sets latest.latest_block
  | fails is_abort ↦
      if is_abort
      then keeps
      else if should_throw_error
      then throws_on (text "Failed to fetch Latest Block")
      else sets latest_indexed_block
]
