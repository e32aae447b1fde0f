-- ===== src/Cache/Refresh.antt =====
-- Which values the cache never serves.
use dymension_rollapp_block.Common.{ℕ, ◌+◌, ◌<◌, ◌≡◌, refl, ap, ◌∙◌, Bool, false, List, ◌∷◌, arith}
use dymension_rollapp_block.Common.Text.{Str}
use dymension_rollapp_block.Cache.{NodeCache, Call, Machine, cache_key, call_cached, settle_call}

module _ {A V : Type 0} (truthy : V → Bool) (stringify : A → Str) (node : NodeCache V) where
  open node use {Store, find, put, find-put_fresh}

  -- A value that is falsy in JavaScript is stored, but the next call with its key awaits its
  -- function again, however soon it comes within the time to live.
  pub falsy_refetched :
      (m : Machine A V Store) (c d : Call A) (others : List (Call A)) (v : V) (waited : ℕ)
      → truthy v ≡ false
      → d.key ≡ c.key
      → d.args ≡ c.args
      → waited < c.ttl
      → (call_cached truthy stringify node
          (record (settle_call truthy stringify node m c others v) { now = m.now + waited })
          d).pending
        ≡ d ∷ others
  unfolding call_cached settle_call
  falsy_refetched m c d others v waited falsy keys args soon =
      let keyed : cache_key stringify d.key d.args ≡ cache_key stringify c.key c.args =
        ap (λ k. cache_key stringify k d.args) keys ∙ ap (λ x. cache_key stringify c.key x) args in
      let store' = put m.store m.now (cache_key stringify c.key c.args) v c.ttl in
      let found =
        ap (λ k. find store' (m.now + waited) k) keyed
        ∙ find-put_fresh m.store m.now (m.now + waited) c.ttl (cache_key stringify c.key c.args) v
            (omega arith) (omega arith) in
      rw (found, call_cached, falsy) refl
