-- ===== src/Ucan/Context/Consume.antt =====
-- lib/ucan/context.go: `Consume`, which takes in the tokens of a message.
-- `unmarshal` stands for `json.Unmarshal` of a token list.
use Prim.Native.String.{len}
use device_management_servic.Common.{
  ℕ, String, Bool, true, List, [], ◌∷◌, ◌++◌, Result, ok, err, too_big, ltb, if◌then◌else◌, any,
  is_ok,
}
use device_management_servic.Common.Map.{lookup, insert}
use device_management_servic.Ucan.Did.{Did, TrustContext}
use device_management_servic.Ucan.Token.{Token, anchor, subject}
use device_management_servic.Ucan.Verify.{verify}
use device_management_servic.Ucan.Context.State.{
  Context, context_did, or_nil, get_roots, get_require_anchors,
}
use device_management_servic.Ucan.Context.Require.{side_chains}

abbrev pub max_capability_size : ℕ
max_capability_size = 16384

-- `consumeSubjectToken`
unfoldable pub consume_subject_token : Context → Token → Context
consume_subject_token ctx t = record ctx {
  tokens = insert (subject t).uri (or_nil (lookup (subject t).uri ctx.tokens) ++ t ∷ []) ctx.tokens;
}

-- The conditions before the label `verify`: the chain holds the context's DID, the origin or a
-- root, or a side chain accepts the token.
unfoldable pub is_wanted : Context → ℕ → Did → List Did → List Did → Token → Bool × Context
is_wanted ctx now origin roots anchors t =
    if anchor t (context_did ctx)
    then (true, ctx)
    else if anchor t origin
    then (true, ctx)
    else if any roots (anchor t)
    then (true, ctx)
    else side_chains ctx now anchors t true

module _ (marshal : Token → Result String) (trust : TrustContext) (now : ℕ) where
  unfoldable pub consume_token : Context → Did → List Did → List Did → Token → Context
  consume_token ctx origin roots anchors t =
      let wanted = is_wanted ctx now origin roots anchors t in
      if wanted.0
      then (if is_ok (verify marshal trust t now wanted.1.revoke)
          then consume_subject_token wanted.1 t
          else wanted.1)
      else wanted.1

  unfoldable pub consume_tokens : Context → Did → List Did → List Did → List Token → Context
  consume_tokens ctx origin roots anchors [] = ctx
  consume_tokens ctx origin roots anchors (t ∷ ts) =
      consume_tokens (consume_token ctx origin roots anchors t) origin roots anchors ts

  -- `Consume`
  unfoldable pub consume :
      (String → Result (List Token)) → Context → Did → String → Result (Unit {0}) × Context
  consume unmarshal ctx origin blob =
      if ltb max_capability_size (len blob) then (err too_big, ctx) else elim (unmarshal blob) [
        | err e ↦ (err e, ctx)
        | ok tokens ↦
            (ok tt, consume_tokens ctx origin (get_roots ctx) (get_require_anchors ctx) tokens)
      ]
