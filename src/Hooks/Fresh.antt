-- ===== src/Hooks/Fresh.antt =====
-- A hook that has finished loading shows the data of its present dependencies, never what a call
-- for earlier ones returned.
use dymension_rollapp_block.Common.{
  ◌≡◌, ◌≢◌, ◌⊎◌, inl, inr, refl, ap, Bool, true, false, Option, none, some, List, [], ◌∷◌, arith,
  Bool-cases, Option-cases,
}
use dymension_rollapp_block.Rpc.Service.{
  Outcome, returned, failed, answers, throws, get_response_result,
}
use dymension_rollapp_block.Store.State.{RpcService}
use dymension_rollapp_block.Hooks.{
  Query, Settled, responded, rejected, Hook, initial_hook, Event, runs, settles, unmounts, run,
  catch, showing, take_outcome, settle_for, settle, unmount, step, play,
}

-- The dependencies of the last run in a history: its key and its service. A run without a service
-- throws.
abbrev pub last_run :
    {K T : Type 0} → Option (K × RpcService) → List (Event K T) → Option (K × RpcService)
last_run o [] = o
last_run o (runs none key ∷ events) = last_run none events
last_run o (runs (some rpc_service) key ∷ events) = last_run (some (key, rpc_service)) events
last_run o (settles settled ∷ events) = last_run o events
last_run o (unmounts ∷ events) = last_run o events

-- The awaited call is for the present dependencies, and so is the data, except while the hook is
-- loading or has thrown.
pub record IsFresh {K T : Type 0} (cur : Option (K × RpcService)) (h : Hook K T) : Type 0 where
  awaits : (k : K × RpcService) → h.awaited ≡ some k → (cur ≡ some k) × (h.loading ≡ true)
  shows :
      (k : K × RpcService) (o : Outcome T)
      → h.shown ≡ some (k, o)
      → (h.loading ≡ true) ⊎ ((h.thrown ≢ none) ⊎ (cur ≡ some k))

module _ {K T : Type 0} (truthy : T → Bool) (query : Query K) where
  unserved-IsFresh :
      (cur : Option (K × RpcService)) (h : Hook K T) (key : K)
      → IsFresh none (run truthy query h none key)
  unfolding run
  unserved-IsFresh cur h key = record {
    awaits = λ k e. absurd (ground arith);
    shows = λ k o e. inr (inl (ground arith));
  }

  run-IsFresh :
      (h : Hook K T) (svc : RpcService) (key : K)
      → IsFresh (some (key, svc)) (run truthy query h (some svc) key)
  unfolding run
  run-IsFresh h svc key = elim (Bool-cases (query.guard key)) [
    | inl asked ↦
        rw asked (record { awaits = λ k e. (ground arith, refl); shows = λ k o e. inl refl })
    | inr idle ↦
        rw idle
          (record { awaits = λ k e. absurd (ground arith); shows = λ k o e. absurd (ground arith) })
  ]

  catch-IsFresh :
      (cur : Option (K × RpcService)) (h : Hook K T) (is_abort : Bool)
      → IsFresh cur h
      → IsFresh cur (catch truthy query h is_abort)
  unfolding catch
  catch-IsFresh cur h is_abort f = record {
    awaits = λ k e. absurd (ground arith);
    shows = λ k o e. ground (arith, f.shows k o);
  }

  showing-IsFresh :
      (h : Hook K T) (key : K × RpcService) (o : Outcome T)
      → IsFresh (some key) (showing truthy query h key o)
  showing-IsFresh h key o = record {
    awaits = λ k e. absurd (ground arith);
    shows = λ k o' e. inr (inr (ground arith));
  }

  take_outcome-IsFresh :
      (h : Hook K T) (key : K × RpcService) (o : Outcome T)
      → IsFresh (some key) h
      → IsFresh (some key) (take_outcome truthy query h key o)
  unfolding take_outcome
  take_outcome-IsFresh h key (throws errors) f = catch-IsFresh (some key) h false f
  take_outcome-IsFresh h key (returned none) f = elim (Bool-cases query.reads_field) [
    | inl reads ↦ rw reads (catch-IsFresh (some key) h false f)
    | inr whole ↦ rw whole (showing-IsFresh h key (returned none))
  ]
  take_outcome-IsFresh h key (returned (some result)) f =
      showing-IsFresh h key (returned (some result))
  take_outcome-IsFresh h key (failed e) f = showing-IsFresh h key (failed e)
  take_outcome-IsFresh h key (answers rs) f = showing-IsFresh h key (answers rs)

  settle_for-IsFresh :
      (h : Hook K T) (key : K × RpcService) (settled : Settled T)
      → IsFresh (some key) h
      → IsFresh (some key) (settle_for truthy query h key settled)
  unfolding settle_for
  settle_for-IsFresh h key (rejected is_abort) f = catch-IsFresh (some key) h is_abort f
  settle_for-IsFresh h key (responded response) f =
      take_outcome-IsFresh h key (get_response_result truthy response query.throw_error) f

  settle_by :
      (h : Hook K T) (settled : Settled T) (o : Option (K × RpcService))
      → h.awaited ≡ o
      → settle truthy query h settled
        ≡ (elim o [ none ↦ h | some key ↦ settle_for truthy query h key settled ])
  unfolding settle
  settle_by h settled o e =
      ap {B = Hook K T}
        (λ (p : Option (K × RpcService)). elim p [
          | none ↦ h
          | some key ↦ settle_for truthy query h key settled
        ])
        e

  settle-IsFresh :
      (cur : Option (K × RpcService)) (h : Hook K T) (settled : Settled T)
      → IsFresh cur h
      → IsFresh cur (settle truthy query h settled)
  settle-IsFresh cur h settled f = elim (Option-cases h.awaited) [
    | inl idle ↦ rw (settle_by h settled none idle) f
    | inr (key, e) ↦
        let same = (f.awaits key e).0 in
        rw (settle_by h settled (some key) e, same)
          (settle_for-IsFresh h key settled (rw same at f))
  ]

  unmount-IsFresh :
      (cur : Option (K × RpcService)) (h : Hook K T)
      → IsFresh cur h
      → IsFresh cur (unmount truthy query h)
  unfolding unmount
  unmount-IsFresh cur h f = record { awaits = λ k e. absurd (ground arith); shows = f.shows }

  play-IsFresh :
      (cur : Option (K × RpcService)) (h : Hook K T) (events : List (Event K T))
      → IsFresh cur h
      → IsFresh (last_run cur events) (play truthy query h events)
  unfolding play step
  play-IsFresh cur h [] f = f
  play-IsFresh cur h (runs none key ∷ events) f =
      play-IsFresh none (run truthy query h none key) events (unserved-IsFresh cur h key)
  play-IsFresh cur h (runs (some svc) key ∷ events) f =
      play-IsFresh (some (key, svc)) (run truthy query h (some svc) key) events
        (run-IsFresh h svc key)
  play-IsFresh cur h (settles settled ∷ events) f =
      play-IsFresh cur (settle truthy query h settled) events (settle-IsFresh cur h settled f)
  play-IsFresh cur h (unmounts ∷ events) f =
      play-IsFresh cur (unmount truthy query h) events (unmount-IsFresh cur h f)

  -- After any history of a hook, the data that it shows is that of a run with its last
  -- dependencies, the key and the RPC service, unless the hook is loading or has thrown.
  pub shown_is_fresh :
      (events : List (Event K T)) (key : K) (rpc_service : RpcService) (o : Outcome T)
      → (play truthy query initial_hook events).shown ≡ some ((key, rpc_service), o)
      → ((play truthy query initial_hook events).loading ≡ true)
        ⊎ (((play truthy query initial_hook events).thrown ≢ none)
            ⊎ (last_run none events ≡ some (key, rpc_service)))
  shown_is_fresh events key rpc_service o e =
      (play-IsFresh none initial_hook events
          (record { awaits = λ k p. absurd (ground arith); shows = λ k o' p. inl refl })).shows
        (key, rpc_service) o e
