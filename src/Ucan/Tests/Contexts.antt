-- ===== src/Ucan/Tests/Contexts.antt =====
-- The context of the node, which has taken in the guest's token.
use device_management_servic.Common.{[], ◌∷◌, ok, ◌≡◌, ◌↔◌, refl, has_prefix, str_eq, delete_func}
use device_management_servic.Common.Map.{lookup, insert, update_keys, update_all}
use device_management_servic.Ucan.Capability.{implies}
use device_management_servic.Ucan.Did.{Did, equal, empty}
use device_management_servic.Ucan.Token.{
  expire_before, anchor, revoked, next, signature_data, revocation_key,
}
use device_management_servic.Ucan.Allow.{
  chain_allows, audience_ok, all_granted, granted, allow_invocation, allow_broadcast,
}
use device_management_servic.Ucan.Verify.Need.{need_capability}
use device_management_servic.Ucan.Verify.{verify, verify_at, verify_signature}
use device_management_servic.Ucan.Context.State.{Context, live, get_tokens, get_subject_tokens}
use device_management_servic.Ucan.Context.Require.{
  require_invocation, require_broadcast, require_by, find_token, accept_any, accepts,
}
use device_management_servic.Ucan.Context.Require.Decision.{
  Authorized, require_invocation_iff, require_broadcast_iff,
}
use device_management_servic.Ucan.Context.Consume.{
  consume, consume_tokens, consume_token, is_wanted, consume_subject_token,
}
use device_management_servic.Ucan.Context.Roots.{
  new_context, new_capability_context, add_roots, and_then, add_root_dids, add_revocations,
  add_requires, add_provides, clean_up_tokens, clean_requires, clean_provides,
}
use device_management_servic.Ucan.Context.Invariant.{IsSound}
use device_management_servic.Ucan.Context.Reach.{Step, Reachable, Reachable-IsSound}
use device_management_servic.Ucan.Context.Reach.Decided.{Derived, Reachable-require_invocation}
use device_management_servic.Ucan.Tests.World.{
  node, guest, marshal, unmarshal, from_id, trust, signer,
}

abbrev fresh : Context
fresh = new_context (signer node)

abbrev taken : Context
taken = (consume marshal trust 100 unmarshal fresh node "tokens").1

taken-Reachable : Reachable marshal unmarshal from_id trust 100 taken
taken-Reachable =
    Reachable.calls 100 fresh taken (Reachable.starts 100 (signer node))
      (Step.consumes fresh node "tokens")

hello-accepted :
    (require_invocation from_id taken 100 node guest.uri node.uri ("/public/hello" ∷ [])).0 ≡ ok tt
unfolding require_invocation require_by consume find_token get_subject_tokens get_tokens lookup
    consume_tokens consume_token is_wanted anchor equal str_eq verify verify_at expire_before
    revoked next verify_signature signature_data delete_func insert has_prefix all_granted
    allow_invocation audience_ok chain_allows granted implies consume_subject_token accept_any
    accepts live empty revocation_key need_capability
hello-accepted = refl

Reachable-require_invocation_example :
    (sub : Did) × (aud : Did) × (from_id guest.uri ≡ ok sub)
    × (from_id node.uri ≡ ok aud)
    × Derived marshal trust 100 taken node sub aud ("/public/hello" ∷ [])
Reachable-require_invocation_example =
    Reachable-require_invocation marshal unmarshal from_id trust 100 taken node guest.uri node.uri
      ("/public/hello" ∷ []) taken-Reachable hello-accepted

Reachable-IsSound_example : IsSound marshal trust 100 taken
Reachable-IsSound_example =
    Reachable-IsSound marshal unmarshal from_id trust 100 taken taken-Reachable

require_invocation_iff_example :
    ((require_invocation from_id taken 100 node guest.uri node.uri ("/public/hello" ∷ [])).0
      ≡ ok tt)
    ↔ ((sub : Did) × (aud : Did) × (from_id guest.uri ≡ ok sub)
        × (from_id node.uri ≡ ok aud)
        × Authorized
            (λ t c. allow_invocation t sub aud c)
            taken
            100
            node
            sub
            ("/public/hello" ∷ []))
require_invocation_iff_example =
    require_invocation_iff from_id taken 100 node guest.uri node.uri ("/public/hello" ∷ [])

require_broadcast_iff_example :
    ((require_broadcast from_id taken 100 node guest.uri "/news" ("/public/hello" ∷ [])).0 ≡ ok tt)
    ↔ ((sub : Did) × (from_id guest.uri ≡ ok sub)
        × Authorized
            (λ t c. allow_broadcast t sub "/news" c)
            taken
            100
            node
            sub
            ("/public/hello" ∷ []))
require_broadcast_iff_example =
    require_broadcast_iff from_id taken 100 node guest.uri "/news" ("/public/hello" ∷ [])

abbrev started : Context
started = record {
  provider = signer node;
  roots = (guest.uri, tt) ∷ [];
  require = [];
  provide = [];
  tokens = [];
  revoke = [];
}

node-starts : new_capability_context marshal trust 100 node (guest ∷ []) [] [] [] ≡ ok started
unfolding new_capability_context add_roots and_then add_root_dids add_revocations add_requires
    add_provides clean_up_tokens clean_requires clean_provides insert update_all update_keys
node-starts = refl
