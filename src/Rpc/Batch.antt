-- ===== src/Rpc/Batch.antt =====
-- What a batch of calls sends, and what is made of the responses.
use dymension_rollapp_block.Common.{
  ℕ, zero, suc, ◌+◌, ◌≡◌, ◌≢◌, ◌↔◌, inl, inr, refl, ap, ◌∙◌, Bool, true, false, Option, none, some,
  List, [], ◌∷◌, map, any, length, get_elem?, arith, Bool-cases, length-map,
}
use dymension_rollapp_block.Rpc.{RpcCallParam, RpcCallParamFull, many, Body, number_from, call_rpc}
use dymension_rollapp_block.Rpc.Service.{
  RpcError, RpcResponse, Answer, throws, answers, Response, errors, has_error, answer,
  get_response_result,
}

errors-nil : {T : Type 0} (rs : List (RpcResponse T)) → any has_error rs ≡ false → errors rs ≡ []
unfolding errors
errors-nil [] h = refl
errors-nil (r ∷ rs) h = ground (arith, errors-nil rs)

errors-cons : {T : Type 0} (rs : List (RpcResponse T)) → any has_error rs ≡ true → errors rs ≢ []
unfolding errors
errors-cons [] h = cc
errors-cons (r ∷ rs) h = ground (arith, errors-cons rs)

-- Where errors are to be thrown, a batch of responses throws exactly where it holds an error, and
-- then exactly the errors that it holds, in their order.
pub batch_throws_iff :
    {T : Type 0} (truthy : T → Bool) (rs : List (RpcResponse T)) (es : List RpcError)
    → (get_response_result truthy (Response.batch rs) true ≡ throws es)
      ↔ ((errors rs ≢ []) × (es ≡ errors rs))
unfolding get_response_result
batch_throws_iff truthy rs es = elim (Bool-cases (any has_error rs)) [
  | inl some_error ↦ (λ e. (errors-cons rs some_error, ground arith), λ (ne, same). ground arith)
  | inr no_error ↦ (λ e. absurd (ground arith), λ (ne, same). absurd (ne (errors-nil rs no_error)))
]

abbrev pub map? {ℓ κ} : {A : Type ℓ} {B : Type κ} → (A → B) → Option A → Option B
map? f none = none
map? f (some a) = some (f a)

module _ {T : Type 0} (truthy : T → Bool) (server : RpcCallParamFull → RpcResponse T) where
  numbered :
      (i j : ℕ) (params : List RpcCallParam)
      → get_elem? (map (answer truthy) (map server (number_from i params))) j
        ≡ map?
            (λ param. answer truthy (server (record { param = param; id = i + j + 1 })))
            (get_elem? params j)
  unfolding number_from
  numbered i j [] = refl
  numbered i zero (param ∷ params) =
      ap (λ (k : ℕ). some (answer truthy (server (record { param = param; id = k + 1 }))))
        (omega arith)
  numbered i (suc j) (param ∷ params) = rw (numbered (i + 1) j params) (
      ap
        (λ (k : ℕ).
          map? (λ p. answer truthy (server (record { param = p; id = k + 1 })))
            (get_elem? params j))
        (omega arith))

  length-number_from :
      (i : ℕ) (params : List RpcCallParam) → length (number_from i params) ≡ length params
  unfolding number_from
  length-number_from i [] = refl
  length-number_from i (param ∷ params) = ap suc (length-number_from (i + 1) params)

  answers_of :
      (rs : List (RpcResponse T)) (throw_error : Bool) (got : List (Answer T))
      → get_response_result truthy (Response.batch rs) throw_error ≡ answers got
      → got ≡ map (answer truthy) rs
  unfolding get_response_result
  answers_of rs throw_error got e = ground arith

  -- Where a batch is sent and the server answers the calls in their order, the answers that are
  -- returned are one for each call, and the one at an index is made from the server's response to the
  -- call at that index, which was sent with the index plus one as its id.
  pub batch_answers :
      (params : List RpcCallParam) (fulls : List RpcCallParamFull) (throw_error : Bool)
      (got : List (Answer T)) (j : ℕ)
      → call_rpc (many params) ≡ Body.batch fulls
      → get_response_result truthy (Response.batch (map server fulls)) throw_error ≡ answers got
      → (length got ≡ length params)
        × (get_elem? got j
            ≡ map?
                (λ param. answer truthy (server (record { param = param; id = j + 1 })))
                (get_elem? params j))
  unfolding call_rpc
  batch_answers params fulls throw_error got j sent e =
      let same : number_from 0 params ≡ fulls = ground arith in
      let made = answers_of (map server fulls) throw_error got e in
      let fulls' = number_from 0 params in
      rw (made, ← same)
        (
          length-map (map server fulls') (answer truthy)
              ∙ length-map fulls' server
              ∙ length-number_from 0 params,
          numbered 0 j params
              ∙ ap
                  (λ (k : ℕ).
                    map? (λ p. answer truthy (server (record { param = p; id = k + 1 })))
                      (get_elem? params j))
                  (omega arith),
        )
