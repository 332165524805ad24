-- ===== src/Ucan/Tests/Roots.antt =====
-- The node's roots, side chains and revocations, and the tokens that it issues.
use Prim.Native.String
use device_management_servic.Common.{
  err, not_authorized, ℕ, true, false, [], ◌∷◌, Result, ok, ◌≡◌, ◌≢◌, refl, subst, arith, ◌⊎◌, inr,
  Memᴰ, has_prefix, str_eq, delete_func,
}
use device_management_servic.Common.Map.{lookup, insert, update_keys, update_all}
use device_management_servic.Ucan.Capability.{implies}
use device_management_servic.Ucan.Did.{empty_did, equal, empty}
use device_management_servic.Ucan.Token.{
  broadcast, Token, root, chained, Claims, invoke, delegate, revoke, key_text, expire_before,
  anchor, revoked, next, signature_data, revocation_key, is_revoke, action, verify_depth,
}
use device_management_servic.Ucan.Token.Links.{chain_of}
use device_management_servic.Ucan.Allow.{
  chain_allows, audience_ok, all_granted, granted, allow_delegation, subsumes,
}
use device_management_servic.Ucan.Verify.{verify, verify_at, verify_signature}
use device_management_servic.Ucan.Delegate.{
  sign_token, with_signature, delegate_as, delegate_invocation,
}
use device_management_servic.Ucan.Context.Provide.Verified.{Fit}
use device_management_servic.Ucan.Context.State.{
  Context, get_tokens, get_subject_tokens, get_provide_tokens, live,
}
use device_management_servic.Ucan.Context.Roots.{
  consume_revoke_token, new_context, add_roots, and_then, add_revocations, add_requires,
  add_root_dids, add_provides, consume_anchor, clean_up_tokens, clean_provides, clean_requires,
  consume_provide_token, verified,
}
use device_management_servic.Ucan.Context.Roots.Failed.{add_roots-unsound}
use device_management_servic.Ucan.Context.Roots.Anchors.{consume_anchor-covers}
use device_management_servic.Ucan.Context.Invariant.{IsSound}
use device_management_servic.Ucan.Context.Invariant.Roots.{
  AllVerify, add_roots-AllVerify, add_roots-IsSound,
}
use device_management_servic.Ucan.Context.Reach.{Reachable, Reachable-IsSound, no_Under}
use device_management_servic.Ucan.Context.Provide.{
  broadcast_all, broadcasts, self_sign_also, grant, revoke_token, invocation_all, self_sign_no,
  close, invocations, issue_from, issue_anchors, providing,
}
use device_management_servic.Ucan.Context.Provide.Revokes.{revoke_token-add_roots}
use device_management_servic.Ucan.Context.Provide.Broadcasts.{broadcast_all-Verifies}
use device_management_servic.Ucan.Context.Provide.Outcome.{invocation_all-Verifies}
use device_management_servic.Ucan.Tests.World.{
  node, user, guest, marshal, unmarshal, from_id, trust, signer, signer-SignsFor, random,
  grant_token, signed_text, seal,
}

abbrev fresh : Context
fresh = new_context (signer node)

fresh-IsSound : IsSound marshal trust 100 fresh
fresh-IsSound =
    Reachable-IsSound marshal unmarshal from_id trust 100 fresh (Reachable.starts 100 (signer node))

-- The node adds the grant to its side chains.
abbrev rooted : Result (Unit {0}) × Context
rooted = add_roots marshal trust 100 fresh (guest ∷ []) (grant_token ∷ []) [] []

rooted-ok : rooted.0 ≡ ok tt
unfolding add_roots and_then add_revocations add_requires verify verify_at expire_before revoked
    lookup add_root_dids verify_signature signature_data str_eq add_provides
rooted-ok = refl

rooted-IsSound : IsSound marshal trust 100 rooted.1
rooted-IsSound =
    add_roots-IsSound marshal trust 100 fresh (guest ∷ []) (grant_token ∷ []) [] []
      (λ key t u. absurd (no_Under key t u)) rooted-ok

add_roots-AllVerify_example : AllVerify marshal trust 100 rooted.1
add_roots-AllVerify_example =
    add_roots-AllVerify marshal trust 100 fresh (guest ∷ []) (grant_token ∷ []) [] []
      (λ key t u. absurd (no_Under key t u)) rooted-ok

-- The token that the node grants with the random bytes of the tests.
abbrev granted_claims : Claims
granted_claims = record {
  action = delegate;
  issuer = node;
  subject = user;
  audience = empty_did;
  topic = [];
  capability = "/public" ∷ [];
  nonce = "n3";
  expire = 1000;
  depth = 3;
  signature = signed_text node user "n3";
}

abbrev granted_token : Token
granted_token = root granted_claims

node-grants :
    grant random marshal fresh (random 0) delegate user empty_did [] 1000 3 ("/public" ∷ [])
    ≡ ok (granted_token ∷ [])
unfolding grant sign_token signature_data
node-grants = refl

granted-unrevoked : revoked [] (revocation_key granted_token) ≡ false
unfolding revoked lookup
granted-unrevoked = refl

-- The user's context, which provides by the grant.
abbrev user_rooted : Result (Unit {0}) × Context
user_rooted = add_roots marshal trust 100 (new_context (signer user)) [] [] (grant_token ∷ []) []

user_rooted-ok : user_rooted.0 ≡ ok tt
unfolding add_roots and_then add_revocations add_requires verify verify_at expire_before revoked
    lookup add_root_dids verify_signature signature_data str_eq add_provides
user_rooted-ok = refl

abbrev user_context : Context
user_context = record {
  provider = signer user;
  roots = [];
  require = [];
  provide = (node.uri, grant_token ∷ []) ∷ [];
  tokens = [];
  revoke = [];
}

user_rooted-context : user_rooted.1 ≡ user_context
unfolding add_roots and_then add_revocations add_requires verify verify_at expire_before revoked
    lookup add_root_dids verify_signature signature_data str_eq add_provides clean_up_tokens
    clean_provides clean_requires consume_provide_token delete_func insert update_all update_keys
    consume_anchor verified get_provide_tokens get_tokens live revocation_key
user_rooted-context = refl

user_context-IsSound : IsSound marshal trust 100 user_context
user_context-IsSound = subst (IsSound marshal trust 100) user_rooted-context (
    add_roots-IsSound marshal trust 100 (new_context (signer user)) [] [] (grant_token ∷ []) []
      (λ key t u. absurd (no_Under key t u)) user_rooted-ok)

abbrev invited_token : Token
invited_token =
    chained
      (record {
        action = invoke;
        issuer = user;
        subject = guest;
        audience = node;
        topic = [];
        capability = "/public/hello" ∷ [];
        nonce = "n3";
        expire = 900;
        depth = 0;
        signature =
            seal user (String.◌++◌ "dms:token:" (String.◌++◌ "+" (key_text user guest "n3")));
      })
      grant_token

user-invites :
    (invocation_all random marshal 100 user_context 0 node guest node 900
      ("/public/hello" ∷ [])
      self_sign_no).0
    ≡ ok (invited_token ∷ [])
unfolding invocation_all close invocations issue_from get_subject_tokens get_tokens lookup
    delete_func insert has_prefix str_eq all_granted allow_delegation audience_ok chain_allows
    granted implies issue_anchors providing get_provide_tokens live delegate_as delegate_invocation
    sign_token with_signature empty equal anchor next signature_data verify_depth expire_before
user-invites = refl

invited-Fit : Fit marshal trust random 100 user_context invited_token
unfolding revoked lookup
invited-Fit = record { fresh = refl; short = omega arith }

invocation_all-Verifies_example : verify marshal trust invited_token 100 user_context.revoke ≡ ok tt
invocation_all-Verifies_example =
    invocation_all-Verifies random marshal trust 100 user_context 0 node guest node 900
      ("/public/hello" ∷ []) self_sign_no (invited_token ∷ []) invited_token user_context-IsSound
      (signer-SignsFor user) (omega arith) user-invites (Memᴰ.head refl) invited-Fit

-- The node takes the grant back.
abbrev revocation : Token
revocation = root (record {
  action = revoke;
  issuer = node;
  subject = user;
  audience = empty_did;
  topic = [];
  capability = "/public" ∷ [];
  nonce = "n1";
  expire = 1000;
  depth = 0;
  signature = signed_text node user "n1";
})

node-revokes : revoke_token random marshal fresh grant_token ≡ ok revocation
unfolding revoke_token sign_token signature_data equal str_eq
node-revokes = refl

revoke_token-add_roots_example :
    ((add_roots marshal trust 100 rooted.1 [] [] [] (revocation ∷ [])).0 ≡ ok tt)
    × ((later : ℕ) (s : Token)
        → Memᴰ grant_token (chain_of s)
        → is_revoke (action s) ≡ false
        → verify marshal trust s later
            (add_roots marshal trust 100 rooted.1 [] [] [] (revocation ∷ [])).1.revoke
          ≢ ok tt)
revoke_token-add_roots_example =
    revoke_token-add_roots marshal trust random 100 fresh rooted.1 grant_token revocation
      (λ e. cc e) (signer-SignsFor node) (omega arith) node-revokes

-- A grant that lasts less long, which the stored one subsumes.
consume_anchor-covers_example :
    (v : Token) × Memᴰ v (consume_anchor (grant_token ∷ []) granted_token)
    × ((v ≡ granted_token) ⊎ (subsumes v granted_token ≡ true))
consume_anchor-covers_example =
    consume_anchor-covers (grant_token ∷ []) granted_token granted_token (inr refl)

-- The node records the revocation, then meets the revoked grant.
revocation-verifies : verify marshal trust revocation 100 [] ≡ ok tt
unfolding verify verify_at expire_before verify_signature signature_data str_eq
revocation-verifies = refl

grant-refused :
    verify marshal trust grant_token 100 (consume_revoke_token fresh revocation).revoke
    ≡ err not_authorized
unfolding consume_revoke_token verify verify_at expire_before revoked lookup insert revocation_key
    str_eq
grant-refused = refl

-- The node holds the grant when the user shows it with its revocation.
abbrev holding : Context
holding = record fresh { tokens = (user.uri, grant_token ∷ []) ∷ [] }

abbrev attempt : Result (Unit {0}) × Context
attempt = add_roots marshal trust 100 holding [] (grant_token ∷ []) [] (revocation ∷ [])

attempt-fails : attempt.0 ≢ ok tt
unfolding add_roots and_then add_root_dids add_revocations add_requires consume_revoke_token verify
    verify_at expire_before revoked lookup insert revocation_key verify_signature signature_data
    str_eq
attempt-fails h = cc

attempt-revokes : revoked attempt.1.revoke (revocation_key grant_token) ≡ true
unfolding add_roots and_then add_root_dids add_revocations add_requires consume_revoke_token verify
    verify_at expire_before revoked lookup insert revocation_key verify_signature signature_data
    str_eq
attempt-revokes = refl

grant-live : expire_before grant_token 100 ≡ false
unfolding expire_before
grant-live = refl

add_roots-unsound_example : ¬ IsSound marshal trust 100 attempt.1
unfolding lookup str_eq
add_roots-unsound_example =
    add_roots-unsound marshal trust 100 holding [] (grant_token ∷ []) [] (revocation ∷ []) user.uri
      grant_token grant_token attempt-fails
      (record { list = grant_token ∷ []; found = refl; member = Memᴰ.head refl }) grant-live refl
      (Memᴰ.head refl) attempt-revokes

-- The node lets the user speak on a topic.
abbrev voice_token : Token
voice_token = root (record {
  action = broadcast;
  issuer = node;
  subject = user;
  audience = empty_did;
  topic = "/news" ∷ [];
  capability = "/public/say" ∷ [];
  nonce = "n3";
  expire = 900;
  depth = 0;
  signature = signed_text node user "n3";
})

node-voices :
    (broadcast_all random marshal 100 fresh 0 user "/news" 900
      ("/public/say" ∷ [])
      self_sign_also).0
    ≡ ok (voice_token ∷ [])
unfolding broadcast_all close broadcasts issue_anchors grant sign_token with_signature
    signature_data
node-voices = refl

voice-Fit : Fit marshal trust random 100 fresh voice_token
unfolding revoked lookup
voice-Fit = record { fresh = refl; short = omega arith }

broadcast_all-Verifies_example : verify marshal trust voice_token 100 [] ≡ ok tt
broadcast_all-Verifies_example =
    broadcast_all-Verifies random marshal trust 100 fresh (signer-SignsFor node) user "/news" 900
      (omega arith) 0 ("/public/say" ∷ []) self_sign_also (voice_token ∷ []) voice_token
      fresh-IsSound node-voices (Memᴰ.head refl) voice-Fit
