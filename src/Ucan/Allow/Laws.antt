-- ===== src/Ucan/Allow/Laws.antt =====
-- lib/ucan/token.go: what the tests of `allowDelegation` and its siblings decide.
use device_management_servic.Common.{
  ℕ, true, false, List, ◌≡◌, ◌↔◌, arith, ◌⊎◌, Memᴰ, any-Memᴰ, Memᴰ-any, all-Memᴰ, Memᴰ-all,
}
use device_management_servic.Ucan.Capability.{Capability, implies}
use device_management_servic.Ucan.Did.{Did, equal, empty}
use device_management_servic.Ucan.Token.{
  Token, byo, root, chained, is_delegate, subject, audience, capability, topic, action,
  expire_before,
}
use device_management_servic.Ucan.Allow.{
  granted, all_granted, audience_ok, chain_allows, subsumes, claims_subsume,
}

-- Some listed capability implies the one that is asked for.
abbrev pub Grants : List Capability → Capability → Type 0
Grants caps c = (g : Capability) × Memᴰ g caps × (implies g c ≡ true)

pub granted_iff :
    (caps : List Capability) (c : Capability) → (granted caps c ≡ true) ↔ Grants caps c
unfolding granted
granted_iff caps c = (any-Memᴰ caps (λ g. implies g c), λ p. Memᴰ-any (λ g. implies g c) p.1 p.2)

pub all_granted_iff :
    (caps asked : List Capability)
    → (all_granted caps asked ≡ true) ↔ ((c : Capability) → Memᴰ c asked → Grants caps c)
unfolding all_granted
all_granted_iff caps asked = (
  λ h c m. (granted_iff caps c).0 (all-Memᴰ (granted caps) h m),
  λ h. Memᴰ-all asked (granted caps) (λ c m. (granted_iff caps c).1 (h c m)),
)

-- The audience of the token above is empty, or is the audience of the token below.
abbrev pub AudienceOk : Did → Did → Type 0
AudienceOk above below = (empty above ≡ true) ⊎ (equal above below ≡ true)

-- What stands above a token with this issuer, audience, topics and expiry, for one capability.
pub record ChainAllows (p : Token) (iss aud : Did) (topics : List Capability) (exp : ℕ)
    (c : Capability) : Type 0 where
  pub delegates : is_delegate (action p) ≡ true
  pub outlives : expire_before p exp ≡ false
  pub to_issuer : equal (subject p) iss ≡ true
  pub audience_fits : AudienceOk (audience p) aud
  pub topics_fit : (t : Capability) → Memᴰ t topics → Grants (topic p) t
  pub grants : Grants (capability p) c

abbrev Tests : Token → Did → Did → List Capability → ℕ → Capability → Type 0
Tests p iss aud topics exp c =
    (is_delegate (action p) ≡ true)
    × (expire_before p exp ≡ false)
    × (equal (subject p) iss ≡ true)
    × AudienceOk (audience p) aud
    × (all_granted (topic p) topics ≡ true)
    × (granted (capability p) c ≡ true)

tests :
    (p : Token) (iss aud : Did) (topics : List Capability) (exp : ℕ) (c : Capability)
    → chain_allows p iss aud topics exp c ≡ true
    → Tests p iss aud topics exp c
unfolding chain_allows audience_ok
tests byo iss aud topics exp c h = cc
tests (root t) iss aud topics exp c h = ground arith
tests (chained t p) iss aud topics exp c h = ground arith

chain_allows_complete :
    (p : Token) (iss aud : Did) (topics : List Capability) (exp : ℕ) (c : Capability)
    → Tests p iss aud topics exp c
    → chain_allows p iss aud topics exp c ≡ true
unfolding chain_allows audience_ok
chain_allows_complete byo iss aud topics exp c h = ground arith
chain_allows_complete (root t) iss aud topics exp c h = ground arith
chain_allows_complete (chained t p) iss aud topics exp c h = ground arith

-- `allowDelegation` decides `ChainAllows`.
pub chain_allows_iff :
    (p : Token) (iss aud : Did) (topics : List Capability) (exp : ℕ) (c : Capability)
    → (chain_allows p iss aud topics exp c ≡ true) ↔ ChainAllows p iss aud topics exp c
chain_allows_iff p iss aud topics exp c = (
  λ h.
      let t = tests p iss aud topics exp c h in
      record {
        delegates = t.0;
        outlives = t.1;
        to_issuer = t.2;
        audience_fits = t.3;
        topics_fit = (all_granted_iff (topic p) topics).0 t.4;
        grants = (granted_iff (capability p) c).0 t.5;
      },
  λ a. chain_allows_complete p iss aud topics exp c (
    a.delegates,
    a.outlives,
    a.to_issuer,
    a.audience_fits,
    (all_granted_iff (topic p) topics).1 a.topics_fit,
    (granted_iff (capability p) c).1 a.grants,
  ),
)

-- A token that has expired subsumes expired tokens only.
pub subsumes-live :
    (now : ℕ) (v t : Token)
    → subsumes v t ≡ true
    → expire_before t now ≡ false
    → expire_before v now ≡ false
unfolding subsumes claims_subsume expire_before
subsumes-live now byo t h live = cc
subsumes-live now (root v) byo h live = cc
subsumes-live now (root v) (root t) h live = ground arith
subsumes-live now (root v) (chained t q) h live = ground arith
subsumes-live now (chained v p) byo h live = cc
subsumes-live now (chained v p) (root t) h live = ground arith
subsumes-live now (chained v p) (chained t q) h live = ground (arith, subsumes-live now p q)
