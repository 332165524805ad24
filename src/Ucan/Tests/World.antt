-- ===== src/Ucan/Tests/World.antt =====
-- The names, keys and tokens of the tests.
use Prim.Native.String
use device_management_servic.Common.{
  ℕ, String, List, [], ◌∷◌, Result, ok, guard, signature_verification, ◌≡◌, refl, arith, str_eq,
  str_eq_iff, has_prefix, delete_func,
}
use device_management_servic.Ucan.Capability.{implies}
use device_management_servic.Ucan.Did.{Did, empty_did, equal, empty, Anchor, Provider, TrustContext}
use device_management_servic.Ucan.Token.{
  Token, byo, root, chained, Claims, invoke, delegate, key_text, expire_before, revoked, next,
  signature_data, revocation_key,
}
use device_management_servic.Common.Map.{lookup}
use device_management_servic.Ucan.Allow.{chain_allows, audience_ok, all_granted, granted}
use device_management_servic.Ucan.Verify.Need.{need_capability}
use device_management_servic.Ucan.Verify.{verify, verify_at, verify_signature}
use device_management_servic.Ucan.Delegate.Roundtrip.{SignsFor}

abbrev pub node : Did
node = record { uri = "did:key:node" }

abbrev pub user : Did
user = record { uri = "did:key:user" }

abbrev pub guest : Did
guest = record { uri = "did:key:guest" }

-- The bytes of a token.
abbrev pub marshal : Token → Result String
marshal byo = ok "{}"
marshal (root c) = ok (key_text c.issuer c.subject c.nonce)
marshal (chained c p) = ok (String.◌++◌ "+" (key_text c.issuer c.subject c.nonce))

-- The signature of a DID on some bytes.
abbrev pub seal : Did → String → String
seal d bytes = String.◌++◌ d.uri (String.◌++◌ ":" bytes)

abbrev pub signer : Did → Provider
signer d = record { did = d; sign = λ bytes. ok (seal d bytes) }

abbrev pub anchor_of : Did → Anchor
anchor_of d = record {
  verify = λ bytes sig. guard (str_eq (seal d bytes) sig) signature_verification;
}

abbrev pub trust : TrustContext
trust = record { get_anchor = λ d. ok (anchor_of d); get_provider = λ d. ok (signer d) }

pub signer-SignsFor : (d : Did) → SignsFor marshal trust (signer d)
signer-SignsFor d = record {
  anchor = anchor_of d;
  resolves = refl;
  verifies = λ bytes sig h.
      let same : seal d bytes ≡ sig = cc in ground (arith, (str_eq_iff (seal d bytes) sig).1 same);
}

abbrev pub signed_text : Did → Did → String → String
signed_text iss sub n = seal iss (String.◌++◌ "dms:token:" (key_text iss sub n))

-- The node lets the user delegate and invoke below `/public`.
abbrev pub grant_claims : Claims
grant_claims = record {
  action = delegate;
  issuer = node;
  subject = user;
  audience = empty_did;
  topic = [];
  capability = "/public" ∷ [];
  nonce = "n1";
  expire = 1000;
  depth = 3;
  signature = signed_text node user "n1";
}

abbrev pub grant_token : Token
grant_token = root grant_claims

-- The user lets the guest say hello to the node.
abbrev pub hello_claims : Claims
hello_claims = record {
  action = invoke;
  issuer = user;
  subject = guest;
  audience = node;
  topic = [];
  capability = "/public/hello" ∷ [];
  nonce = "n2";
  expire = 900;
  depth = 0;
  signature = seal user (String.◌++◌ "dms:token:" (String.◌++◌ "+" (key_text user guest "n2")));
}

abbrev pub hello_token : Token
hello_token = chained hello_claims grant_token

-- The user, whose token the node takes back.
abbrev pub from_id : String → Result Did
from_id id = ok (record { uri = id })

abbrev pub unmarshal : String → Result (List Token)
unmarshal blob = ok (hello_token ∷ [])

abbrev pub random : ℕ → Result String
random n = ok "n3"

pub grant-verifies : verify marshal trust grant_token 100 [] ≡ ok tt
unfolding verify verify_at expire_before revoked lookup verify_signature signature_data str_eq
    revocation_key
grant-verifies = refl

pub hello-verifies : verify marshal trust hello_token 100 [] ≡ ok tt
unfolding verify verify_at expire_before revoked lookup next verify_signature signature_data str_eq
    equal need_capability chain_allows audience_ok empty all_granted implies has_prefix delete_func
    granted revocation_key
hello-verifies = refl
