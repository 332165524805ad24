-- ===== src/Ucan/Context/Provide/Request.antt =====
-- lib/ucan/context.go: `Provide` and `ProvideBroadcast`, which answer with tokens as a blob.
-- `marshal_list` stands for `json.Marshal` of a token list, `from_id` for `did.FromID`.

use device_management_servic.Common.{
  ℕ, String, ◌&&◌, List, [], ◌∷◌, ◌++◌, Result, ok, err, ◌>>=◌, not_authorized, if◌then◌else◌,
  is_nil,
}
use device_management_servic.Ucan.Capability.{Capability}
use device_management_servic.Ucan.Did.{Did}
use device_management_servic.Ucan.Token.{Token}
use device_management_servic.Ucan.Context.State.{Context}
use device_management_servic.Ucan.Context.Provide.{
  self_sign_also, self_sign_only, delegate_all, invocation_all, broadcast_all,
}

module _ (rand : ℕ → Result String) where
  module _ (marshal : Token → Result String) where
    -- `if len(tokens) == 0 { return … }`
    abbrev pub some_tokens : List Token → Result (List Token)
    some_tokens [] = err not_authorized
    some_tokens (t ∷ ts) = ok (t ∷ ts)

    module _ (from_id : String → Result Did) (marshal_list : List Token → Result String) where
      -- The tail of `Provide`: the delegation tokens, unless none are wanted.
      provide_delegation :
          ℕ
          → Context
          → ℕ
          → Did
          → Did
          → ℕ
          → List Capability
          → List Token
          → Result (List Token) × Context × ℕ
      provide_delegation now ctx n target sub exp [] result = (ok result, ctx, n)
      provide_delegation now ctx n target sub exp (c ∷ cs) result =
          let d = delegate_all rand marshal now ctx n target sub [] exp 1 (c ∷ cs) self_sign_only in
          (d.0 >>= (λ ts. some_tokens ts >>= (λ us. ok (result ++ us))), d.1, d.2)

      -- `Provide`, when the DIDs are known
      provide_tokens :
          ℕ
          → Context
          → ℕ
          → Did
          → Did
          → Did
          → ℕ
          → List Capability
          → List Capability
          → Result (List Token) × Context × ℕ
      unfolding provide_delegation
      provide_tokens now ctx n target sub aud exp inv pro =
          let i = invocation_all rand marshal now ctx n target sub aud exp inv self_sign_also in
          elim (i.0 >>= some_tokens) [
            | err e ↦ (err e, i.1, i.2)
            | ok result ↦ provide_delegation now i.1 i.2 target sub exp pro result
          ]

      -- `Provide`
      unfoldable pub provide :
          ℕ
          → Context
          → ℕ
          → Did
          → String
          → String
          → ℕ
          → List Capability
          → List Capability
          → Result String × Context × ℕ
      unfolding provide_tokens
      provide now ctx n target sub aud exp inv pro =
          if is_nil inv && is_nil pro then (err not_authorized, ctx, n) else elim (from_id sub) [
            | err e ↦ (err e, ctx, n)
            | ok s ↦ elim (from_id aud) [
              | err e ↦ (err e, ctx, n)
              | ok a ↦
                  if is_nil inv
                  then (err not_authorized, ctx, n)
                  else (let r = provide_tokens now ctx n target s a exp inv pro in
                      (r.0 >>= marshal_list, r.1, r.2))
            ]
          ]

      -- `ProvideBroadcast`
      unfoldable pub provide_broadcast :
          ℕ → Context → ℕ → String → String → ℕ → List Capability → Result String × Context × ℕ
      provide_broadcast now ctx n sub top exp pro =
          if is_nil pro then (err not_authorized, ctx, n) else elim (from_id sub) [
            | err e ↦ (err e, ctx, n)
            | ok s ↦
                let r = broadcast_all rand marshal now ctx n s top exp pro self_sign_also in
                ((r.0 >>= some_tokens) >>= marshal_list, r.1, r.2)
          ]
