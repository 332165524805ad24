-- ===== src/Ucan/Context/Require.antt =====
-- lib/ucan/context.go: `Require` and `RequireBroadcast`, the check of an invocation.
-- `from_id` stands for `did.FromID`, which decodes a public key.
pub mod Side
pub mod Search
pub mod Decision
use Prim.Native.String.{len}
use device_management_servic.Common.{
  ℕ, String, Bool, true, false, ◌&&◌, List, [], ◌∷◌, Result, ok, err, not_authorized, if◌then◌else◌,
  any, is_nil,
}
use device_management_servic.Ucan.Capability.{Capability}
use device_management_servic.Ucan.Did.{Did}
use device_management_servic.Ucan.Token.{Token, anchor}
use device_management_servic.Ucan.Allow.{allow_action, allow_invocation, allow_broadcast}
use device_management_servic.Ucan.Context.State.{
  Context, get_roots, get_require_anchors, get_require_tokens, get_subject_tokens,
}

-- The loop over the side chains: `rt.AllowAction(t) && …`. The flag is the second condition.
unfoldable pub side_chains : Context → ℕ → List Did → Token → Bool → Bool × Context
side_chains ctx now [] t allowed = (false, ctx)
side_chains ctx now (a ∷ anchors) t allowed =
    let read = get_require_tokens ctx a now in
    if any read.0 (λ rt. allow_action rt t && allowed)
    then (true, read.1)
    else side_chains read.1 now anchors t allowed

-- The body of the loops over tokens and capabilities.
unfoldable pub accepts : Context → ℕ → Did → List Did → List Did → Token → Bool → Bool × Context
accepts ctx now anc roots anchors t allowed =
    if anchor t anc && allowed
    then (true, ctx)
    else if any roots (λ r. anchor t r && allowed)
    then (true, ctx)
    else side_chains ctx now anchors t allowed

module _ (allows : Token → Capability → Bool) (now : ℕ) (anc : Did) (roots anchors : List Did) where
  unfoldable pub accept_any : Context → Token → List Capability → Bool × Context
  accept_any ctx t [] = (false, ctx)
  accept_any ctx t (c ∷ cs) =
      let one = accepts ctx now anc roots anchors t (allows t c) in
      let rest = accept_any one.1 t cs in if one.0 then one else rest

  unfoldable pub find_token : Context → List Token → List Capability → Bool × Context
  find_token ctx [] caps = (false, ctx)
  find_token ctx (t ∷ ts) caps =
      let one = accept_any ctx t caps in
      let rest = find_token one.1 ts caps in if one.0 then one else rest

-- What `Require` and `RequireBroadcast` share: the search among the subject's tokens.
unfoldable pub require_by :
    (Token → Capability → Bool)
    → Context
    → ℕ
    → Did
    → Did
    → List Capability
    → Result (Unit {0}) × Context
require_by allows ctx now anc sub caps =
    let read = get_subject_tokens ctx sub now in
    let roots = get_roots read.1 in
    let anchors = get_require_anchors read.1 in
    let found = find_token allows now anc roots anchors read.1 read.0 caps in
    (if found.0 then ok tt else err not_authorized, found.1)

module _ (from_id : String → Result Did) where
  -- `Require`
  unfoldable pub require_invocation :
      Context → ℕ → Did → String → String → List Capability → Result (Unit {0}) × Context
  require_invocation ctx now anc subject audience caps =
      if is_nil caps then (err not_authorized, ctx) else elim (from_id subject) [
        | err e ↦ (err e, ctx)
        | ok sub ↦ elim (from_id audience) [
          | err e ↦ (err e, ctx)
          | ok aud ↦ require_by (λ t c. allow_invocation t sub aud c) ctx now anc sub caps
        ]
      ]

  -- `RequireBroadcast`
  unfoldable pub require_broadcast :
      Context → ℕ → Did → String → String → List Capability → Result (Unit {0}) × Context
  require_broadcast ctx now anc subject top caps =
      if is_nil caps then (err not_authorized, ctx) else elim (from_id subject) [
        | err e ↦ (err e, ctx)
        | ok sub ↦ require_by (λ t c. allow_broadcast t sub top c) ctx now anc sub caps
      ]
