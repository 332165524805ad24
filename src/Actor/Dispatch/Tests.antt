-- ===== src/Actor/Dispatch/Tests.antt =====
-- actor/dispatch.go, actor/security.go: the guest says hello to the node.
use device_management_servic.Common.{
  arith, ℕ, String, Bool, true, false, str_eq, str_eq_iff, has_prefix, delete_func, up, [], ◌∷◌,
  none, some, Result, ok, ◌≡◌, refl, sym, ap,
}
use device_management_servic.Common.Map.{lookup, insert}
use device_management_servic.Ucan.Capability.{implies}
use device_management_servic.Ucan.Did.{Did, equal, empty}
use device_management_servic.Ucan.Token.{
  Token, root, delegate, expire_before, anchor, revoked, next, signature_data, revocation_key,
}
use device_management_servic.Ucan.Allow.{
  chain_allows, audience_ok, all_granted, granted, allow_invocation,
}
use device_management_servic.Ucan.Verify.Need.{need_capability}
use device_management_servic.Ucan.Verify.{verify, verify_at, verify_signature}
use device_management_servic.Ucan.Context.State.{live, get_tokens, get_subject_tokens, context_did}
use device_management_servic.Ucan.Context.Require.{
  require_invocation, require_by, find_token, accept_any, accepts,
}
use device_management_servic.Ucan.Context.Consume.{
  consume, consume_tokens, consume_token, is_wanted, consume_subject_token,
}
use device_management_servic.Ucan.Context.Roots.{new_context}
use device_management_servic.Ucan.Context.Reach.{Reachable, Reachable-IsSound}
use device_management_servic.Ucan.Context.Roots.Kept.{Accepted}
use device_management_servic.Ucan.Context.Invariant.{IsSound}
use device_management_servic.Ucan.Context.Reach.Decided.{Derived}
use device_management_servic.Ucan.Tests.World.{
  node, guest, marshal, unmarshal, from_id, trust, signer, seal, signed_text, random,
  signer-SignsFor,
}
use device_management_servic.Actor.Message.{Handle, Envelope, empty_handle, is_broadcast_message}
use device_management_servic.Actor.Limiter.{
  default_config, new_rate_limiter, is_public_behavior, acquire, acquire_public,
}
use device_management_servic.Actor.Security.{
  BasicSecurityContext, expired_message, to_self, message_data, sign_message, verify_message,
  require_message,
}
use device_management_servic.Ucan.Delegate.{sign_token}
use device_management_servic.Ucan.Context.Provide.{grant}
use device_management_servic.Actor.Security.Provide.{
  grant_message, grant_message-Accepted, grant_message-Step,
}
use device_management_servic.Actor.Security.Signatures.{SignsAs, sign_message-verify}
use device_management_servic.Actor.Security.Authority.{consumed}
use device_management_servic.Actor.Dispatch.{
  BehaviorState, Dispatch, expired_behavior, recv_message, require_for, dispatch_message,
}
use device_management_servic.Actor.Dispatch.Reaches.{Reaches, Checked}
use device_management_servic.Actor.Dispatch.Authority.{
  dispatch_message-Derived, dispatch_message-one_shot,
}

abbrev handle_of : Did → Handle
handle_of d = record {
  id = d.uri;
  did = d;
  address = record { host_id = d.uri; inbox_address = "" };
}

abbrev marshal_message : Envelope → Result String
marshal_message msg = ok msg.message

abbrev public_key : String → Result (String → String → Result Bool)
public_key id = ok (λ bytes sig. ok (str_eq sig (seal (record { uri = id }) bytes)))

abbrev guest_sign : String → Result String
guest_sign bytes = ok (seal guest bytes)

abbrev unsigned : Envelope
unsigned = record {
  to = handle_of node;
  behavior = "/public/hello";
  from = handle_of guest;
  nonce = 1;
  expire = 1000;
  reply_to = "";
  topic = "";
  message = "hello";
  capability = "tokens";
  signature = "";
}

abbrev hello : Envelope
hello = record unsigned { signature = seal guest "dms:msg:hello" }

abbrev guest_security : BasicSecurityContext
guest_security = record { id = guest.uri; cap = new_context (signer guest); nonce = 0 }

guest-SignsAs : SignsAs public_key guest_sign guest.uri
guest-SignsAs = record {
  check = λ bytes sig. ok (str_eq sig (seal guest bytes));
  known = refl;
  accepts = λ bytes sig h.
      let same : seal guest bytes ≡ sig = cc in
      ap (λ (b : Bool). ok b) ((str_eq_iff sig (seal guest bytes)).1 (sym same));
}

hello-signed : sign_message marshal_message guest_sign guest_security unsigned ≡ ok hello
unfolding sign_message message_data str_eq
hello-signed = refl

hello-in_time : expired_message 100 unsigned ≡ false
unfolding expired_message
hello-in_time = refl

sign_message-verify_example : verify_message marshal_message public_key 100 hello ≡ ok tt
sign_message-verify_example =
    sign_message-verify marshal_message public_key guest_sign guest_security 100 unsigned hello
      guest-SignsAs hello-signed hello-in_time

abbrev greeting : BehaviorState ℕ
greeting = record {
  cont = 7;
  capability = "/public/hello" ∷ [];
  expire = 0;
  one_shot = true;
  topic = "";
}

abbrev kernel : Dispatch ℕ
kernel = record {
  sctx = record { id = node.uri; cap = new_context (signer node); nonce = 0 };
  verified_queue = [];
  behaviors = ("/public/hello", greeting) ∷ [];
  limiter = new_rate_limiter default_config;
}

abbrev queued : Dispatch ℕ
queued = recv_message marshal_message public_key 100 hello kernel

queued-Reaches : Reaches marshal unmarshal from_id trust marshal_message public_key 100 queued
queued-Reaches =
    Reaches.receives 100 hello kernel
      (Reaches.starts 100 kernel (Reachable.starts 100 (signer node)) refl)

queued-hello : queued.verified_queue ≡ hello ∷ []
unfolding recv_message verify_message expired_message message_data str_eq
queued-hello = refl

hello-runs :
    (dispatch_message marshal unmarshal from_id trust 100 hello
      (record queued { verified_queue = [] })).0
    ≡ some greeting
unfolding dispatch_message require_for require_message expired_behavior to_self recv_message
    verify_message expired_message message_data require_invocation require_by consume find_token
    get_subject_tokens get_tokens lookup consume_tokens consume_token is_wanted anchor equal str_eq
    verify verify_at expire_before revoked next verify_signature signature_data delete_func insert
    has_prefix all_granted allow_invocation audience_ok chain_allows granted implies
    consume_subject_token accept_any accepts live empty revocation_key need_capability
    is_broadcast_message empty_handle acquire acquire_public is_public_behavior up
hello-runs = refl

hello-personal : is_broadcast_message hello ≡ false
unfolding dispatch_message require_for require_message expired_behavior to_self recv_message
    verify_message expired_message message_data require_invocation require_by consume find_token
    get_subject_tokens get_tokens lookup consume_tokens consume_token is_wanted anchor equal str_eq
    verify verify_at expire_before revoked next verify_signature signature_data delete_func insert
    has_prefix all_granted allow_invocation audience_ok chain_allows granted implies
    consume_subject_token accept_any accepts live empty revocation_key need_capability
    is_broadcast_message empty_handle acquire acquire_public is_public_behavior up
hello-personal = refl

hello-foreign : to_self queued.sctx hello ≡ false
unfolding dispatch_message require_for require_message expired_behavior to_self recv_message
    verify_message expired_message message_data require_invocation require_by consume find_token
    get_subject_tokens get_tokens lookup consume_tokens consume_token is_wanted anchor equal str_eq
    verify verify_at expire_before revoked next verify_signature signature_data delete_func insert
    has_prefix all_granted allow_invocation audience_ok chain_allows granted implies
    consume_subject_token accept_any accepts live empty revocation_key need_capability
    is_broadcast_message empty_handle acquire acquire_public is_public_behavior up
hello-foreign = refl

dispatch_message-Derived_example :
    Checked marshal_message public_key 100 hello
    × (lookup "/public/hello" queued.behaviors ≡ some greeting)
    × (expired_behavior 100 greeting ≡ false)
    × ((sub : Did) × (aud : Did) × (from_id guest.uri ≡ ok sub)
        × (from_id queued.sctx.id ≡ ok aud)
        × Derived marshal trust 100
            (consumed marshal unmarshal from_id trust 100 queued.sctx hello
              ("/public/hello" ∷ [])).1
            (context_did queued.sctx.cap)
            sub
            aud
            ("/public/hello" ∷ []))
dispatch_message-Derived_example =
    dispatch_message-Derived marshal unmarshal from_id trust marshal_message public_key 100 hello []
      queued greeting queued-Reaches queued-hello hello-runs hello-personal hello-foreign

dispatch_message-one_shot_example :
    (dispatch_message marshal unmarshal from_id trust 101 hello
      (dispatch_message marshal unmarshal from_id trust 100 hello
        (record queued { verified_queue = [] })).1).0
    ≡ none
dispatch_message-one_shot_example =
    dispatch_message-one_shot marshal unmarshal from_id trust 100 101 hello hello
      (record queued { verified_queue = [] }) greeting hello-runs refl refl

abbrev node_security : BasicSecurityContext
node_security = record { id = node.uri; cap = new_context (signer node); nonce = 0 }

abbrev granted_token : Token
granted_token = root (record {
  action = delegate;
  issuer = node;
  subject = guest;
  audience = node;
  topic = [];
  capability = "/public" ∷ [];
  nonce = "n3";
  expire = 1000;
  depth = 1;
  signature = signed_text node guest "n3";
})

token-granted :
    grant random marshal node_security.cap (random 0) delegate guest node [] 1000 1 ("/public" ∷ [])
    ≡ ok (granted_token ∷ [])
unfolding grant signature_data sign_token
token-granted = refl

token-fresh : revoked [] (revocation_key granted_token) ≡ false
unfolding revoked lookup revocation_key
token-fresh = refl

node_security-IsSound : IsSound marshal trust 100 node_security.cap
node_security-IsSound =
    Reachable-IsSound marshal unmarshal from_id trust 100 node_security.cap
      (Reachable.starts 100 (signer node))

grant_message-Accepted_example :
    ((grant_message random marshal trust 100 node_security 0 guest node ("/public" ∷ []) 1000).0
      ≡ ok tt)
    × Accepted
        (grant_message random marshal trust 100 node_security 0 guest node
          ("/public" ∷ [])
          1000).1.cap.require
        granted_token
grant_message-Accepted_example =
    grant_message-Accepted random marshal trust 100 node_security 0 guest node ("/public" ∷ []) 1000
      granted_token node_security-IsSound (signer-SignsFor node) (omega arith) token-granted
      token-fresh

granted_ok :
    (grant_message random marshal trust 100 node_security 0 guest node ("/public" ∷ []) 1000).0
    ≡ ok tt
granted_ok =
    (grant_message-Accepted random marshal trust 100 node_security 0 guest node ("/public" ∷ [])
      1000 granted_token node_security-IsSound (signer-SignsFor node) (omega arith) token-granted
      token-fresh).0

-- The node grants while its kernel runs.
granted-Reaches :
    Reaches marshal unmarshal from_id trust marshal_message public_key 100 (record queued {
      sctx = record queued.sctx {
        cap =
            (grant_message random marshal trust 100 node_security 0 guest node
              ("/public" ∷ [])
              1000).1.cap;
      };
    })
unfolding recv_message verify_message expired_message message_data str_eq
granted-Reaches = Reaches.capabilities 100 _ queued queued-Reaches (
    grant_message-Step random marshal trust 100 unmarshal from_id node_security 0 guest node
      ("/public" ∷ []) 1000 granted_ok)
