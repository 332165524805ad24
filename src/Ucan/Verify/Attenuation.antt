-- ===== src/Ucan/Verify/Attenuation.antt =====
-- lib/ucan/token.go: authority does not grow along a chain that verifies.
use mathlib.Core.List.Memᴰ
use device_management_servic.Common.{
  ℕ, String, true, false, List, Result, ok, ◌≡◌, refl, sym, arith, Memᴰ, has_prefix, str_eq,
}
use device_management_servic.Ucan.Capability.{Capability, implies, root_capability}
use device_management_servic.Ucan.Capability.Order.{root-implies, implies_refl, implies_trans}
use device_management_servic.Ucan.Did.{Did, TrustContext}
use device_management_servic.Ucan.Allow.{allow_invocation, granted, chain_allows}
use device_management_servic.Ucan.Allow.Laws.{Grants, granted_iff, chain_allows_iff}
use device_management_servic.Ucan.Token.{
  Token, byo, root, chained, is_revoke, capability, action, next, RevocationSet,
}
use device_management_servic.Ucan.Token.Links.{chain_of, first, first_Memᴰ}
use device_management_servic.Ucan.Verify.{verify}
use device_management_servic.Ucan.Verify.Chain.{Valid, verify_at_iff}

-- No link of the chain carries the empty text as a capability.
abbrev pub NoEmpty : Token → Type 0
NoEmpty t = (l : Token) → Memᴰ l (chain_of t) → ¬ Memᴰ "" (capability l)

Grants-trans :
    (caps : List Capability) (c d : Capability)
    → ¬ Memᴰ "" caps
    → Grants caps c
    → implies c d ≡ true
    → Grants caps d
Grants-trans caps c d n (g, m, h) k = (g, m, implies_trans g c d (λ e. n (Memᴰ.cast (sym e) m)) h k)

module _ (marshal : Token → Result String) (trust : TrustContext) (now : ℕ)
    (revoke : RevocationSet) where
  Valid-Grants :
      (t : Token) (depth : ℕ) (x : Capability)
      → Valid marshal trust now revoke t depth
      → NoEmpty t
      → Memᴰ x (capability t)
      → Grants (capability (first t)) x
  Valid-Grants byo depth x v n m = absurd v
  Valid-Grants (root c) depth x v n m = (x, m, implies_refl x)
  Valid-Grants (chained c p) depth x (l, d, v) n m =
      let (g, k, h) = (d.passes x m).grants in
      Grants-trans (capability (first p)) g x (n (first p) (Memᴰ.tail (first_Memᴰ p)))
        (Valid-Grants p (next depth) g v (λ q i. n q (Memᴰ.tail i)) k) h

  pub allow_invocation-granted :
      (t : Token) (sub aud : Did) (c : Capability)
      → allow_invocation t sub aud c ≡ true
      → (is_revoke (action t) ≡ false) × (granted (capability t) c ≡ true)
  unfolding allow_invocation
  allow_invocation-granted byo sub aud c h = cc
  allow_invocation-granted (root t) sub aud c h = ground arith
  allow_invocation-granted (chained t p) sub aud c h = ground arith

  -- If a token verifies and allows an invocation, the first token of its chain grants the
  -- capability, provided that no token of the chain carries the empty text as a capability.
  pub verify-attenuates :
      (t : Token) (sub aud : Did) (c : Capability)
      → verify marshal trust t now revoke ≡ ok tt
      → NoEmpty t
      → allow_invocation t sub aud c ≡ true
      → Grants (capability (first t)) c
  unfolding verify
  verify-attenuates t sub aud c h n a =
      let (r, q) = allow_invocation-granted t sub aud c a in
      let (g, m, k) = (granted_iff (capability t) c).0 q in
      let v = (verify_at_iff marshal trust now revoke t 0 r).0 h in
      Grants-trans (capability (first t)) g c (n (first t) (first_Memᴰ t))
        (Valid-Grants t 0 g v n m) k

empty-implies-root : implies "" root_capability ≡ true
unfolding implies has_prefix str_eq
empty-implies-root = refl

-- A token that may pass on the empty text as a capability may pass on the root as well, which
-- grants everything.
pub empty_amplifies :
    (p : Token) (iss aud : Did) (topics : List Capability) (exp : ℕ)
    → Memᴰ "" (capability p)
    → chain_allows p iss aud topics exp "" ≡ true
    → (chain_allows p iss aud topics exp root_capability ≡ true)
      × ((c : Capability) → implies root_capability c ≡ true)
empty_amplifies p iss aud topics exp m h =
    let a = (chain_allows_iff p iss aud topics exp "").0 h in
    (
      (chain_allows_iff p iss aud topics exp root_capability).1 (record {
        delegates = a.delegates;
        outlives = a.outlives;
        to_issuer = a.to_issuer;
        audience_fits = a.audience_fits;
        topics_fit = a.topics_fit;
        grants = ("", m, empty-implies-root);
      }),
      root-implies,
    )
