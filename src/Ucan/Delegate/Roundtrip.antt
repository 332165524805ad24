-- ===== src/Ucan/Delegate/Roundtrip.antt =====
-- lib/ucan/token.go: a token that is issued below a valid one is valid.
use device_management_servic.Common.{
  ℕ, ◌+◌, ◌≤◌, ◌<◌, String, true, false, List, ◌∷◌, Result, ok, ◌≡◌, refl, sym, subst, ap, ◌∙◌,
  arith, Memᴰ, length, >>=-eq-ok, guard-eq-ok, guard, ◌>>=◌, ◌>>◌, not_authorized,
}
use device_management_servic.Ucan.Capability.{Capability}
use device_management_servic.Ucan.Did.{Did, Anchor, Provider, TrustContext, equal_iff}
use device_management_servic.Ucan.Allow.{needed_depth, chain_allows}
use device_management_servic.Ucan.Allow.Laws.{ChainAllows, chain_allows_iff}
use device_management_servic.Ucan.Token.{
  Token, byo, root, chained, Claims, Action, delegate, is_delegate, is_revoke, action, verify_depth,
  exceeds, next, u64_mod, RevocationSet, revoked, revocation_key, signature_data, subject,
}
use device_management_servic.Ucan.Token.Links.{chain_of}
use device_management_servic.Ucan.Verify.{verify, verify_at, verify_signature}
use device_management_servic.Ucan.Verify.Chain.{
  expire_before-le, delegate_not_revoke, Valid, LinkOk, verify_at_iff,
}
use device_management_servic.Ucan.Delegate.{sign_token, delegate_as}

chain_pos : (t : Token) → 0 < length (chain_of t)
chain_pos byo = omega arith
chain_pos (root c) = omega arith
chain_pos (chained c p) = omega arith

pub exceeds_zero : (d : ℕ) → exceeds d 0 ≡ false
exceeds_zero d = ground arith

-- A distance that each link allows is no smaller than one that is known to be allowed.
verify_depth_mono :
    (t : Token) (d e : ℕ)
    → d ≤ e
    → e + length (chain_of t) ≤ u64_mod
    → verify_depth t e ≡ true
    → verify_depth t d ≡ true
unfolding verify_depth next
verify_depth_mono byo d e h b v = cc
verify_depth_mono (root c) d e h b v = ground arith
verify_depth_mono (chained c p) d e h b v =
    ground (arith, chain_pos p, verify_depth_mono p (next d) (next e))

module _ (marshal : Token → Result String) (trust : TrustContext) where
  -- A valid chain at another depth.
  Valid-depth :
      (now : ℕ) (r : RevocationSet) (t : Token) (d e : ℕ)
      → Valid marshal trust now r t d
      → verify_depth t e ≡ true
      → Valid marshal trust now r t e
  unfolding verify_depth
  Valid-depth now r byo d e v h = v
  Valid-depth now r (root c) d e v h = record {
    live = v.live;
    within = ground arith;
    unrevoked = v.unrevoked;
    signed = v.signed;
  }
  Valid-depth now r (chained c p) d e (k, g, v) h = (
    record { live = k.live; within = ground arith; unrevoked = k.unrevoked; signed = k.signed },
    g,
    Valid-depth now r p (next d) (next e) v (ground arith),
  )

  -- The provider signs what the anchor of its DID verifies.
  pub record SignsFor (provider : Provider) : Type 0 where
    pub anchor : Anchor
    pub resolves : trust.get_anchor provider.did ≡ ok anchor
    pub verifies :
        (bytes sig : String) → provider.sign bytes ≡ ok sig → anchor.verify bytes sig ≡ ok tt

  signature_data-signed :
      (c : Claims) (p : Token) (sig : String)
      → signature_data marshal (chained (record c { signature = sig }) p)
        ≡ signature_data marshal (chained c p)
  unfolding signature_data
  signature_data-signed c p sig = refl

  signed-verify :
      (provider : Provider) (c : Claims) (p : Token) (bytes sig : String)
      → c.issuer ≡ provider.did
      → SignsFor provider
      → signature_data marshal (chained c p) ≡ ok bytes
      → provider.sign bytes ≡ ok sig
      → verify_signature marshal trust
          (chained (record c { signature = sig }) p)
          (record c { signature = sig })
        ≡ ok tt
  unfolding verify_signature
  signed-verify provider c p bytes sig e s hb hs =
      rw (ap trust.get_anchor e ∙ s.resolves, signature_data-signed c p sig, hb)
        (s.verifies bytes sig hs)

  pub sign_token-chained :
      (provider : Provider) (c : Claims) (p t : Token)
      → sign_token marshal provider (chained c p) ≡ ok t
      → (bytes : String) × (sig : String) × (signature_data marshal (chained c p) ≡ ok bytes)
        × (provider.sign bytes ≡ ok sig)
        × (t ≡ chained (record c { signature = sig }) p)
  unfolding sign_token
  sign_token-chained provider c p t h =
      let (bytes, hb, h1) = >>=-eq-ok (signature_data marshal (chained c p)) _ h in
      let (sig, hs, h2) = >>=-eq-ok (provider.sign bytes) _ h1 in (bytes, sig, hb, hs, cc)

  -- The claims of the token that `delegate` issues.
  abbrev pub issued :
      Action
      → Did
      → String
      → Did
      → Did
      → List Capability
      → ℕ
      → ℕ
      → List Capability
      → String
      → Claims
  issued act iss nonce sub aud topics exp dep caps sig = record {
    action = act;
    issuer = iss;
    subject = sub;
    audience = aud;
    topic = topics;
    capability = caps;
    nonce = nonce;
    expire = exp;
    depth = dep;
    signature = sig;
  }

  -- The tests that `delegate` makes before it signs.
  passed :
      {f : String → Result Token} (p t : Token) (act : Action) (nonce : Result String)
      → (guard (is_delegate (action p)) not_authorized
          >> (guard (verify_depth p (needed_depth act)) not_authorized >> (nonce >>= f)))
        ≡ ok t
      → (is_delegate (action p) ≡ true)
        × (verify_depth p (needed_depth act) ≡ true)
        × ((n : String) × (f n ≡ ok t))
  passed p t act nonce h =
      let (a, h1) = guard-eq-ok _ _ _ h in
      let (b, h2) = guard-eq-ok _ _ _ h1 in let (n, k, h3) = >>=-eq-ok nonce _ h2 in (a, b, (n, h3))

  pub delegate_as-issued :
      (p t : Token) (act : Action) (provider : Provider) (nonce : Result String) (sub aud : Did)
      (topics : List Capability) (exp dep : ℕ) (caps : List Capability)
      → delegate_as marshal p act provider nonce sub aud topics exp dep caps ≡ ok t
      → (is_delegate (action p) ≡ true)
        × (verify_depth p (needed_depth act) ≡ true)
        × ((n : String) × (sign_token marshal provider
                (chained (issued act provider.did n sub aud topics exp dep caps "") p)
              ≡ ok t))
  unfolding delegate_as
  delegate_as-issued byo t act provider nonce sub aud topics exp dep caps h = cc
  delegate_as-issued (root c) t act provider nonce sub aud topics exp dep caps h =
      passed (root c) t act nonce h
  delegate_as-issued (chained c p) t act provider nonce sub aud topics exp dep caps h =
      passed (chained c p) t act nonce h

  -- A valid token allows the next distance if `delegate` found enough depth.
  depth_left :
      (p : Token) (act : Action)
      → 2 + length (chain_of p) ≤ u64_mod
      → verify_depth p (needed_depth act) ≡ true
      → verify_depth p 1 ≡ true
  depth_left p delegate b h = verify_depth_mono p 1 2 (omega arith) b h
  depth_left p _ b h = h

  -- A token below a valid one that allows all that it carries.
  Valid-below :
      (now : ℕ) (r : RevocationSet) (p : Token) (d : Claims)
      → is_delegate (action p) ≡ true
      → ((x : Capability)
          → Memᴰ x d.capability
          → ChainAllows p d.issuer d.audience d.topic d.expire x)
      → (x : Capability) → Memᴰ x d.capability
      → LinkOk marshal trust now r (chained d p) d 0
      → Valid marshal trust now r p 1
      → Valid marshal trust now r (chained d p) 0
  unfolding next
  Valid-below now r p d del allow x m link v =
      let a = allow x m in
      (
        link,
        record {
          delegates = del;
          outlives = expire_before-le p d.expire a.outlives;
          from_subject = sym ((equal_iff (subject p) d.issuer).0 a.to_issuer);
          passes = λ y k.
              let b = allow y k in
              record {
                grants = b.grants;
                audience_fits = b.audience_fits;
                topics_fit = b.topics_fit;
              };
        },
        v,
      )

  -- If a token verifies, `delegate` succeeds on it, the provider signs for its DID, the token
  -- allows each of one or more capabilities to be passed on, the expiry is not past, and the
  -- result is neither a revocation nor revoked, then the result verifies.
  pub delegate-verify :
      (now : ℕ) (r : RevocationSet) (p t : Token) (act : Action) (provider : Provider)
      (nonce : Result String) (sub aud : Did) (topics : List Capability) (exp dep : ℕ)
      (c : Capability) (cs : List Capability)
      → verify marshal trust p now r ≡ ok tt
      → SignsFor provider
      → 2 + length (chain_of p) ≤ u64_mod
      → ((x : Capability) → Memᴰ x (c ∷ cs) → chain_allows p provider.did aud topics exp x ≡ true)
      → now ≤ exp
      → is_revoke act ≡ false
      → revoked r (revocation_key t) ≡ false
      → delegate_as marshal p act provider nonce sub aud topics exp dep (c ∷ cs) ≡ ok t
      → verify marshal trust t now r ≡ ok tt
  unfolding verify
  delegate-verify now r p t act provider nonce sub aud topics exp dep c cs v s b a n nr fresh h =
      let (del, left, named) =
        delegate_as-issued p t act provider nonce sub aud topics exp dep (c ∷ cs) h in
      let unsigned = issued act provider.did named.0 sub aud topics exp dep (c ∷ cs) "" in
      let (bytes, sig, hb, hg, e) = sign_token-chained provider unsigned p t named.1 in
      subst (λ u. verify_at marshal trust now r u 0 ≡ ok tt) (sym e)
        ((verify_at_iff marshal trust now r (chained (record unsigned { signature = sig }) p) 0
            nr).1
          (Valid-below now r p (record unsigned { signature = sig }) del
            (λ x m. (chain_allows_iff p provider.did aud topics exp x).0 (a x m)) c (Memᴰ.head refl)
            (record {
              live = n;
              within = exceeds_zero dep;
              unrevoked = subst (λ u. revoked r (revocation_key u) ≡ false) e fresh;
              signed = signed-verify provider unsigned p bytes sig refl s hb hg;
            })
            (Valid-depth now r p 0 1
              ((verify_at_iff marshal trust now r p 0 (delegate_not_revoke p del)).0 v)
              (depth_left p act b left))))
