-- ===== src/Hooks.antt =====
-- web-app/src/hooks: the hooks that fetch data from the RPC service of the selected RollApp. They
-- share one shape: an effect that runs when its dependencies change, aborts what the run before it
-- still waits for, calls the service, and sets `loading` and the data when the call settles. The
-- shape is modelled once, as a state and its events; a hook is given by what differs.
pub mod Queries
pub mod Fresh
pub mod Recent
pub mod Attempt
pub mod Denoms
use dymension_rollapp_block.Common.{
  Bool, true, false, Option, none, some, List, [], ◌∷◌, if◌then◌else◌,
}
use dymension_rollapp_block.Common.Text.{Str, text}
use dymension_rollapp_block.Rpc.{Calls}
use dymension_rollapp_block.Rpc.Service.{
  Response, Outcome, returned, failed, answers, throws, get_response_result,
}
use dymension_rollapp_block.Store.State.{RpcService}

-- What differs between the hooks: when a call is made, which one, and what a failure does.
pub record Query (K : Type 0) : Type 0 where
  pub guard : K → Bool
  pub calls : K → Calls
  -- the second argument of `getResponseResult`
  pub throw_error : Bool
  -- the message of the error that is thrown on; where there is none the failure is only logged
  pub failure : Option Str
  -- whether a field of the result is read, which throws where the result is undefined
  pub reads_field : Bool

-- What the promise of a call settles to.
pub data Settled (T : Type 0) : Type 0 where
  responded : Response T → Settled T
  rejected : (is_abort : Bool) → Settled T

-- `shown` has the data with the dependencies of the run that fetched it, the service among them.
pub record Hook (K T : Type 0) : Type 0 where
  pub loading : Bool
  pub shown : Option ((K × RpcService) × Outcome T)
  pub thrown : Option Str
  -- the dependencies and the service of the run whose call is awaited
  pub awaited : Option (K × RpcService)

pub data Event (K T : Type 0) : Type 0 where
  runs : Option RpcService → K → Event K T
  settles : Settled T → Event K T
  unmounts : Event K T

abbrev pub initial_hook : {K T : Type 0} → Hook K T
initial_hook = record { loading = true; shown = none; thrown = none; awaited = none }

module _ {K T : Type 0} (truthy : T → Bool) (query : Query K) where
  -- The effect, behind the cleanup of the run before. What was awaited is aborted: its promise
  -- settles with an abort, which the handler passes over.
  unfoldable pub run : Hook K T → Option RpcService → K → Hook K T
  run h none key = record h { thrown = some (text "Rpc Service is not available"); awaited = none }
  run h (some rpc_service) key =
      if query.guard key
      then record h { loading = true; awaited = some (key, rpc_service) }
      else record h { shown = none; awaited = none }

  -- The `catch` block, and `finally { ac = null }`.
  unfoldable pub catch : Hook K T → (is_abort : Bool) → Hook K T
  catch h true = record h { awaited = none }
  catch h false = elim query.failure [
    | none ↦ record h { awaited = none }
    | some message ↦ record h { awaited = none; thrown = some message }
  ]

  abbrev pub showing : Hook K T → K × RpcService → Outcome T → Hook K T
  showing h key outcome = record h { loading = false; awaited = none; shown = some (key, outcome) }

  -- What is made of the result of `getResponseResult`.
  unfoldable pub take_outcome : Hook K T → K × RpcService → Outcome T → Hook K T
  unfolding catch
  take_outcome h key (throws errors) = catch h false
  take_outcome h key (returned none) =
      if query.reads_field then catch h false else showing h key (returned none)
  take_outcome h key (returned (some result)) = showing h key (returned (some result))
  take_outcome h key (failed e) = showing h key (failed e)
  take_outcome h key (answers rs) = showing h key (answers rs)

  unfoldable pub settle_for : Hook K T → K × RpcService → Settled T → Hook K T
  unfolding catch take_outcome
  settle_for h key (rejected is_abort) = catch h is_abort
  settle_for h key (responded response) =
      take_outcome h key (get_response_result truthy response query.throw_error)

  -- The awaited promise settles. An aborted run has no continuation that changes the state.
  unfoldable pub settle : Hook K T → Settled T → Hook K T
  unfolding settle_for
  settle h settled = elim h.awaited [ none ↦ h | some key ↦ settle_for h key settled ]

  -- The component goes away: the cleanup aborts what is awaited.
  unfoldable pub unmount : Hook K T → Hook K T
  unmount h = record h { awaited = none }

  unfoldable pub step : Hook K T → Event K T → Hook K T
  unfolding run settle unmount
  step h (runs rpc_service key) = run h rpc_service key
  step h (settles settled) = settle h settled
  step h unmounts = unmount h

  -- A history of events, the first one first.
  unfoldable pub play : Hook K T → List (Event K T) → Hook K T
  unfolding step
  play h [] = h
  play h (e ∷ events) = play (step h e) events
