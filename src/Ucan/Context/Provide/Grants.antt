-- ===== src/Ucan/Context/Provide/Grants.antt =====
-- lib/ucan/context.go: tokens that a context signs by itself: `Grant` and `Revoke`.
use mathlib.Core.List.Memᴰ
use device_management_servic.Common.{
  ℕ, ◌≤◌, String, true, false, List, [], ◌∷◌, Result, ok, guard-eq-ok, >>=-eq-ok, ◌≡◌, ◌≢◌, refl,
  sym, subst, ap, ◌∙◌, Memᴰ,
}
use device_management_servic.Ucan.Capability.{Capability}
use device_management_servic.Ucan.Did.{Did, empty_did, Provider, TrustContext, equal_iff}
use device_management_servic.Ucan.Token.{
  Token, byo, root, chained, Claims, Action, revoke, action, issuer, is_revoke, expire,
  RevocationSet, revoked, revocation_key, key_text, subject, nonce, capability, signature_data,
}
use device_management_servic.Ucan.Verify.{verify, verify_signature}
use device_management_servic.Ucan.Verify.Chain.{verify_at_iff}
use device_management_servic.Ucan.Verify.Later.{revocation_iff}
use device_management_servic.Ucan.Delegate.{sign_token}
use device_management_servic.Ucan.Delegate.Roundtrip.{SignsFor, exceeds_zero}
use device_management_servic.Ucan.Context.State.{Context, context_did}
use device_management_servic.Ucan.Context.Provide.{grant, revoke_token}

-- The key of a token that is no BYO token.
revocation_key-text :
    (t : Token) → t ≢ byo → revocation_key t ≡ key_text (issuer t) (subject t) (nonce t)
unfolding revocation_key
revocation_key-text byo n = absurd (n refl)
revocation_key-text (root c) n = refl
revocation_key-text (chained c p) n = refl

revocation_key-root :
    (c : Claims) (sig : String)
    → revocation_key (root (record c { signature = sig })) ≡ key_text c.issuer c.subject c.nonce
unfolding revocation_key
revocation_key-root c sig = refl

abbrev revocation_of : Token → Claims
revocation_of t = record {
  action = revoke;
  issuer = issuer t;
  subject = subject t;
  audience = empty_did;
  topic = [];
  capability = capability t;
  nonce = nonce t;
  expire = expire t;
  depth = 0;
  signature = "";
}

module _ (marshal : Token → Result String) (trust : TrustContext) (rand : ℕ → Result String) where
  -- The signature is not part of what is signed.
  signature_data-root :
      (c : Claims) (sig : String)
      → signature_data marshal (root (record c { signature = sig }))
        ≡ signature_data marshal (root c)
  unfolding signature_data
  signature_data-root c sig = refl

  -- The signature of a first token verifies.
  sign_token-root :
      (provider : Provider) (c : Claims) (t : Token)
      → c.issuer ≡ provider.did
      → SignsFor marshal trust provider
      → sign_token marshal provider (root c) ≡ ok t
      → (sig : String) × (t ≡ root (record c { signature = sig }))
        × (verify_signature marshal trust
              (root (record c { signature = sig }))
              (record c { signature = sig })
            ≡ ok tt)
  unfolding sign_token verify_signature
  sign_token-root provider c t own s h =
      let (bytes, hb, h1) = >>=-eq-ok (signature_data marshal (root c)) _ h in
      let (sig, hs, h2) = >>=-eq-ok (provider.sign bytes) _ h1 in
      (
        sig,
        cc,
        rw (ap trust.get_anchor own ∙ s.resolves, signature_data-root c sig, hb)
            (s.verifies bytes sig hs),
      )

  module _ (now : ℕ) (r : RevocationSet) where
    root-Verifies :
        (c : Claims)
        → now ≤ c.expire
        → is_revoke c.action ≡ false
        → revoked r (revocation_key (root c)) ≡ false
        → verify_signature marshal trust (root c) c ≡ ok tt
        → verify marshal trust (root c) now r ≡ ok tt
    unfolding verify
    root-Verifies c later nr fresh sig =
        (verify_at_iff marshal trust now r (root c) 0 nr).1
          (record { live = later; within = exceeds_zero c.depth; unrevoked = fresh; signed = sig })

    signed-Verifies :
        (provider : Provider) (c : Claims) (t : Token)
        → c.issuer ≡ provider.did
        → SignsFor marshal trust provider
        → now ≤ c.expire
        → is_revoke c.action ≡ false
        → sign_token marshal provider (root c) ≡ ok t
        → revoked r (revocation_key t) ≡ false
        → verify marshal trust t now r ≡ ok tt
    signed-Verifies provider c t own s later nr h fresh =
        let (sig, same, v) = sign_token-root provider c t own s h in
        subst (λ w. verify marshal trust w now r ≡ ok tt) (sym same)
          (root-Verifies (record c { signature = sig }) later nr
            (subst (λ w. revoked r (revocation_key w) ≡ false) same fresh) v)

    -- If the provider signs for its DID and the expiry is not past, every token that `Grant`
    -- returns for an action other than `Revoke` verifies, unless its key is revoked.
    pub grant-Verifies :
        (ctx : Context) (drawn : Result String) (act : Action) (sub aud : Did)
        (topics : List Capability) (exp dep : ℕ) (caps : List Capability) (ts : List Token)
        (t : Token)
        → SignsFor marshal trust ctx.provider
        → now ≤ exp
        → is_revoke act ≡ false
        → grant rand marshal ctx drawn act sub aud topics exp dep caps ≡ ok ts
        → Memᴰ t ts
        → revoked r (revocation_key t) ≡ false
        → verify marshal trust t now r ≡ ok tt
    unfolding grant
    grant-Verifies ctx drawn act sub aud topics exp dep caps ts t s later nr h i fresh =
        let (bytes, e, h1) = >>=-eq-ok drawn _ h in
        let (u, f, h2) = >>=-eq-ok (sign_token marshal ctx.provider _) _ h1 in
        let only : ts ≡ u ∷ [] = cc in
        let same = Memᴰ.eq_of_singleton (subst (λ l. Memᴰ t l) only i) in
        signed-Verifies ctx.provider _ t refl s later nr (f ∙ ap ok (sym same)) fresh

    -- If the provider signs for its DID, the token that `Revoke` returns for a token with an expiry
    -- that is not past verifies whatever has been revoked, is a revocation, and has the key of the token.
    pub revoke_token-Verifies :
        (ctx : Context) (t u : Token)
        → t ≢ byo
        → SignsFor marshal trust ctx.provider
        → now ≤ expire t
        → revoke_token rand marshal ctx t ≡ ok u
        → (verify marshal trust u now r ≡ ok tt)
          × (is_revoke (action u) ≡ true)
          × (revocation_key u ≡ revocation_key t)
    unfolding revoke_token
    revoke_token-Verifies ctx t u w s later h =
        let (own, h1) = guard-eq-ok _ _ _ h in
        let (sig, same, v) =
          sign_token-root ctx.provider _ u (sym ((equal_iff (context_did ctx) (issuer t)).0 own)) s
            h1 in
        (
          subst (λ y. verify marshal trust y now r ≡ ok tt) (sym same)
              ((revocation_iff marshal trust now r _ refl).1 (later, v)),
          ap (λ y. is_revoke (action y)) same,
          ap revocation_key same
              ∙ revocation_key-root (revocation_of t) sig
              ∙ sym (revocation_key-text t w),
        )
