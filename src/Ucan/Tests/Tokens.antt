-- ===== src/Ucan/Tests/Tokens.antt =====
-- The node's grant and the token that the user issued below it.
use mathlib.Core.List.Memᴰ
use device_management_servic.Common.{
  String, true, false, List, [], ◌∷◌, ok, ◌≡◌, ◌≢◌, ◌↔◌, refl, sym, subst, arith, inl, inr, Memᴰ,
  has_prefix, str_eq,
}
use device_management_servic.Common.Map.{lookup}
use device_management_servic.Ucan.Capability.{Capability, implies, root_capability}
use device_management_servic.Ucan.Did.{empty_did, equal, empty}
use device_management_servic.Ucan.Token.{
  Token, root, Claims, invoke, revoke, expire_before, revoked, revocation_key, capability,
  verify_depth, signature_data, key_text,
}
use device_management_servic.Ucan.Token.Links.{first}
use device_management_servic.Ucan.Allow.{
  chain_allows, audience_ok, all_granted, granted, allow_invocation,
}
use device_management_servic.Ucan.Allow.Laws.{Grants}
use device_management_servic.Ucan.Verify.{verify, verify_at}
use device_management_servic.Ucan.Verify.Chain.{Valid, verify_at_iff}
use device_management_servic.Ucan.Verify.Attenuation.{NoEmpty, verify-attenuates, empty_amplifies}
use device_management_servic.Ucan.Verify.Later.{verify-later, revoked-verify}
use device_management_servic.Ucan.Delegate.{delegate_as, sign_token, with_signature}
use device_management_servic.Ucan.Delegate.Roundtrip.{delegate-verify}
use device_management_servic.Ucan.Tests.World.{
  node, user, guest, marshal, trust, signer, signer-SignsFor, signed_text, hello_token, grant_token,
  grant_claims, hello-verifies, grant-verifies,
}

verify_at_iff_example :
    (verify_at marshal trust 100 [] hello_token 0 ≡ ok tt)
    ↔ Valid marshal trust 100 [] hello_token 0
verify_at_iff_example = verify_at_iff marshal trust 100 [] hello_token 0 refl

hello-NoEmpty : NoEmpty hello_token
hello-NoEmpty l m e = elim (Memᴰ.cases_cons m) [
  | inl p ↦ cc (Memᴰ.eq_of_singleton (subst (λ x. Memᴰ "" (capability x)) p e))
  | inr k ↦
      cc (Memᴰ.eq_of_singleton (subst (λ x. Memᴰ "" (capability x)) (Memᴰ.eq_of_singleton k) e))
]

hello-allowed : allow_invocation hello_token guest node "/public/hello" ≡ true
unfolding allow_invocation equal str_eq audience_ok empty granted implies has_prefix
hello-allowed = refl

verify-attenuates_example : Grants (capability (first hello_token)) "/public/hello"
verify-attenuates_example =
    verify-attenuates marshal trust 100 [] hello_token guest node "/public/hello" hello-verifies
      hello-NoEmpty hello-allowed

hello-lasts : expire_before hello_token 500 ≡ false
unfolding expire_before
hello-lasts = refl

verify-later_example : verify marshal trust hello_token 500 [] ≡ ok tt
verify-later_example =
    verify-later marshal trust 100 500 [] [] hello_token hello-verifies (λ key h. h) hello-lasts

abbrev revocations : List (String × Token)
revocations = (key_text node user "n1", grant_token) ∷ []

revocations-grant : revoked revocations (revocation_key grant_token) ≡ true
unfolding revoked lookup str_eq revocation_key
revocations-grant = refl

revoked-verify_example : verify marshal trust hello_token 100 revocations ≢ ok tt
revoked-verify_example =
    revoked-verify marshal trust 100 revocations hello_token grant_token refl
      (Memᴰ.tail (Memᴰ.head refl)) revocations-grant

-- A grant of the empty text.
abbrev loose_token : Token
loose_token = root (record grant_claims { capability = "" ∷ [] })

loose-allows : chain_allows loose_token user node [] 900 "" ≡ true
unfolding chain_allows expire_before equal str_eq audience_ok empty all_granted granted implies
    has_prefix
loose-allows = refl

empty_amplifies_example :
    (chain_allows loose_token user node [] 900 root_capability ≡ true)
    × ((c : Capability) → implies root_capability c ≡ true)
empty_amplifies_example = empty_amplifies loose_token user node [] 900 (Memᴰ.head refl) loose-allows

user-delegates :
    delegate_as marshal grant_token invoke
      (signer user)
      (ok "n2")
      guest
      node
      []
      900
      0
      ("/public/hello" ∷ [])
    ≡ ok hello_token
unfolding delegate_as sign_token with_signature signature_data verify_depth
user-delegates = refl

hello-unrevoked : revoked [] (revocation_key hello_token) ≡ false
unfolding revoked lookup
hello-unrevoked = refl

grant-allows : chain_allows grant_token user node [] 900 "/public/hello" ≡ true
unfolding chain_allows expire_before equal str_eq audience_ok empty all_granted granted implies
    has_prefix
grant-allows = refl

delegate-verify_example : verify marshal trust hello_token 100 [] ≡ ok tt
delegate-verify_example =
    delegate-verify marshal trust 100 [] grant_token hello_token invoke (signer user) (ok "n2")
      guest node [] 900 0 "/public/hello" [] grant-verifies (signer-SignsFor user) (omega arith)
      (λ x m.
        subst (λ y. chain_allows grant_token user node [] 900 y ≡ true)
          (sym (Memᴰ.eq_of_singleton m)) grant-allows)
      (omega arith) refl hello-unrevoked user-delegates

-- The node's revocation of its grant.
abbrev revocation_claims : Claims
revocation_claims = record {
  action = revoke;
  issuer = node;
  subject = user;
  audience = empty_did;
  topic = [];
  capability = "/public" ∷ [];
  nonce = "n1";
  expire = 1000;
  depth = 0;
  signature = signed_text node user "n1";
}
