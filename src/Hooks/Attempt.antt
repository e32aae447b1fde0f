-- ===== src/Hooks/Attempt.antt =====
-- One call in the `try` block of a hook: what is awaited, and how the block goes on.
use dymension_rollapp_block.Common.{Bool, true, false, Option, List}
use dymension_rollapp_block.Rpc.Service.{
  RpcResponse, Response, Answer, returned, failed, answers, throws, get_response_result,
}

-- What the promise of one call, or of a batch, settles to.
pub data Reply (R : Type 0) : Type 0 where
  replied : R → Reply R
  lost : (is_abort : Bool) → Reply R

-- The block goes on with a value, or control passes to `catch`.
pub data Attempt (A : Type 0) : Type 0 where
  got : A → Attempt A
  fails : (is_abort : Bool) → Attempt A

infixl 5 ◌>>=◌
abbrev pub ◌>>=◌ : {A B : Type 0} → Attempt A → (A → Attempt B) → Attempt B
got a >>= f = f a
fails is_abort >>= f = fails is_abort

-- An object is truthy.
abbrev pub is_object : {T : Type 0} → T → Bool
is_object t = true

-- `await getResponseResult(…)` of one call. The two last cases are those of other calls.
unfoldable pub fetch : {T : Type 0} → Reply (RpcResponse T) → Attempt (Option T)
unfolding get_response_result
fetch (lost is_abort) = fails is_abort
fetch (replied response) = elim (get_response_result is_object (Response.single response) true) [
  | returned result ↦ got result
  | throws errors ↦ fails false
  | failed e ↦ fails false
  | answers rs ↦ fails false
]

-- `await getResponseResult(…)` of a batch, whose array is spread; a server may answer a batch with
-- one response, and spreading what is no array throws.
unfoldable pub fetch_all : {T : Type 0} → Reply (Response T) → Attempt (List (Answer T))
unfolding get_response_result
fetch_all (lost is_abort) = fails is_abort
fetch_all (replied response) = elim (get_response_result is_object response true) [
  | answers rs ↦ got rs
  | throws errors ↦ fails false
  | failed e ↦ fails false
  | returned result ↦ fails false
]
