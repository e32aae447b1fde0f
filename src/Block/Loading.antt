-- ===== src/Block/Loading.antt =====
-- What the page of a block shows of the hook `useBlockDetail`.
use dymension_rollapp_block.Common.{ℕ, ◌≡◌, refl, Bool, true, Option, none, some, List, [], ◌∷◌}
use dymension_rollapp_block.Common.Text.{Str}
use dymension_rollapp_block.Pagination.{Number, nan, num}
use dymension_rollapp_block.Search.Block.{parse_int_prefix}
use dymension_rollapp_block.Rpc.Service.{Outcome, returned, failed, answers, throws}
use dymension_rollapp_block.Hooks.{
  Hook, Event, runs, settles, unmounts, initial_hook, run, settle, unmount, step, play,
}
use dymension_rollapp_block.Hooks.Queries.{use_block_detail}
use dymension_rollapp_block.Table.Block.{BlockDetail}
use dymension_rollapp_block.Block.{loads, block_detail_page}

-- `NaN` is falsy like 0, which the effect's test of the number does not tell apart.
abbrev pub key_of : Number → ℕ
key_of nan = 0
key_of (num n) = n

abbrev pub block_of_outcome : Outcome BlockDetail → Option BlockDetail
block_of_outcome (returned block) = block
block_of_outcome (failed e) = none
block_of_outcome (answers rs) = none
block_of_outcome (throws es) = none

-- The block of the hook's state.
abbrev pub block_of_hook : Hook ℕ BlockDetail → Option BlockDetail
block_of_hook h = elim h.shown [ none ↦ none | some (k, o) ↦ block_of_outcome o ]

-- The effect only runs for one number, and with a service.
abbrev pub AreRunsOf : ℕ → List (Event ℕ BlockDetail) → Type 0
AreRunsOf k [] = Unit
AreRunsOf k (runs none key ∷ events) = ⊥
AreRunsOf k (runs (some rpc_service) key ∷ events) = (key ≡ k) × AreRunsOf k events
AreRunsOf k (settles settled ∷ events) = AreRunsOf k events
AreRunsOf k (unmounts ∷ events) = AreRunsOf k events

abbrev IsIdle : Hook ℕ BlockDetail → Type 0
IsIdle h = (h.loading ≡ true) × (h.awaited ≡ none) × (h.thrown ≡ none)

module _ (truthy : BlockDetail → Bool) where
  step-IsIdle :
      (h : Hook ℕ BlockDetail) (e : Event ℕ BlockDetail)
      → AreRunsOf 0 (e ∷ [])
      → IsIdle h
      → IsIdle (step truthy use_block_detail h e)
  unfolding step run settle unmount use_block_detail
  step-IsIdle h (runs none key) r i = absurd r
  step-IsIdle h (runs (some svc) key) (r, _) (l, a, t) = rw r (l, refl, t)
  step-IsIdle h (settles settled) r (l, a, t) = rw a (l, refl, t)
  step-IsIdle h unmounts r (l, a, t) = (l, refl, t)

  play-IsIdle :
      (h : Hook ℕ BlockDetail) (events : List (Event ℕ BlockDetail))
      → AreRunsOf 0 events
      → IsIdle h
      → IsIdle (play truthy use_block_detail h events)
  unfolding play
  play-IsIdle h [] r i = i
  play-IsIdle h (runs none key ∷ events) r i = absurd r
  play-IsIdle h (runs (some svc) key ∷ events) (e, r) i =
      play-IsIdle (step truthy use_block_detail h (runs (some svc) key)) events r
        (step-IsIdle h (runs (some svc) key) (e, tt) i)
  play-IsIdle h (settles settled ∷ events) r i =
      play-IsIdle (step truthy use_block_detail h (settles settled)) events r
        (step-IsIdle h (settles settled) tt i)
  play-IsIdle h (unmounts ∷ events) r i =
      play-IsIdle (step truthy use_block_detail h unmounts) events r (step-IsIdle h unmounts tt i)

  -- Where the block's number in the address is 0 or not a number and the RPC service is there, the
  -- page of the block loads at all times: after any runs of the hook's effect for it and any
  -- responses, all items are skeletons, and neither an error nor the page of what is not found is
  -- ever shown.
  pub unnumbered_block_loads :
      (block_no pathname : Str) (events : List (Event ℕ BlockDetail))
      → key_of (parse_int_prefix block_no) ≡ 0
      → AreRunsOf (key_of (parse_int_prefix block_no)) events
      → let h = play truthy use_block_detail initial_hook events in
        block_detail_page block_no h.thrown (block_of_hook h) h.loading pathname ≡ loads
  unfolding block_detail_page
  unnumbered_block_loads block_no pathname events z r =
      let (loading, _, calm) = play-IsIdle initial_hook events (rw z at r) (refl, refl, refl) in
      rw (calm, loading) refl
