-- ===== src/Ucan/Context/Provide/Broadcasts.antt =====
-- lib/ucan/context.go: what `DelegateBroadcast` returns, in each mode.
use mathlib.Core.List.Memᴰ
use device_management_servic.Common.{
  ℕ, ◌≤◌, String, List, [], ◌∷◌, Result, ok, ◌≡◌, refl, subst, sym, inl, inr, Memᴰ,
}
use device_management_servic.Ucan.Capability.{Capability}
use device_management_servic.Ucan.Did.{Did, empty_did, TrustContext}
use device_management_servic.Ucan.Token.{Token, broadcast}
use device_management_servic.Ucan.Verify.{verify}
use device_management_servic.Ucan.Delegate.{delegate_broadcast}
use device_management_servic.Ucan.Delegate.Roundtrip.{SignsFor}
use device_management_servic.Ucan.Context.State.{Context, context_did, get_provide_anchors}
use device_management_servic.Ucan.Context.Invariant.{IsSound}
use device_management_servic.Ucan.Context.Provide.{
  SelfSignMode, self_sign_no, self_sign_also, self_sign_only, may_broadcast, make_broadcast,
  broadcasts, broadcast_all,
}
use device_management_servic.Ucan.Context.Provide.Grants.{grant-Verifies}
use device_management_servic.Ucan.Context.Provide.Issued.{Made, issue_anchors-Made}
use device_management_servic.Ucan.Context.Provide.Verified.{
  Fit, delegate_as-Verifies, Supplies-provide,
}
use device_management_servic.Ucan.Context.Provide.Outcome.{close-cases, issue_anchors-provider}

module _ (rand : ℕ → Result String) (marshal : Token → Result String) (trust : TrustContext)
    (now : ℕ) (ctx : Context) (signs : SignsFor marshal trust ctx.provider) (sub : Did)
    (top : String) (exp : ℕ) (later : now ≤ exp) where
  Made-broadcast :
      (c : Capability) (cs : List Capability) (t : Token)
      → Made
          (may_broadcast rand marshal (context_did ctx) top exp)
          (make_broadcast rand marshal ctx.provider sub top exp)
          (c ∷ cs)
          (λ p. verify marshal trust p now ctx.revoke ≡ ok tt)
          t
      → Fit marshal trust rand now ctx t
      → verify marshal trust t now ctx.revoke ≡ ok tt
  unfolding delegate_broadcast
  Made-broadcast c cs t m fit =
      delegate_as-Verifies marshal trust rand now ctx signs sub empty_did c cs m.above t broadcast
        m.drawn (top ∷ []) exp 0 m.source later refl m.may m.made fit

  broadcasts-Verifies :
      (mode : SelfSignMode) (n : ℕ) (c : Capability) (cs : List Capability) (t : Token)
      → IsSound marshal trust now ctx
      → Memᴰ t (broadcasts rand marshal mode now ctx n sub top exp (c ∷ cs)).0
      → Fit marshal trust rand now ctx t
      → verify marshal trust t now ctx.revoke ≡ ok tt
  unfolding broadcasts
  broadcasts-Verifies self_sign_only n c cs t s i fit = absurd (Memᴰ.not-nil i)
  broadcasts-Verifies self_sign_no n c cs t s i fit =
      Made-broadcast c cs t
        (issue_anchors-Made rand _ _ c cs _ now ctx n (get_provide_anchors ctx)
          (Supplies-provide marshal trust rand now ctx s) t i)
        fit
  broadcasts-Verifies self_sign_also n c cs t s i fit =
      Made-broadcast c cs t
        (issue_anchors-Made rand _ _ c cs _ now ctx n (get_provide_anchors ctx)
          (Supplies-provide marshal trust rand now ctx s) t i)
        fit

  broadcasts-provider :
      (mode : SelfSignMode) (n : ℕ) (caps : List Capability)
      → (broadcasts rand marshal mode now ctx n sub top exp caps).1.provider ≡ ctx.provider
  unfolding broadcasts
  broadcasts-provider self_sign_only n caps = refl
  broadcasts-provider self_sign_no n caps =
      issue_anchors-provider rand marshal _ _ caps now ctx n (get_provide_anchors ctx)
  broadcasts-provider self_sign_also n caps =
      issue_anchors-provider rand marshal _ _ caps now ctx n (get_provide_anchors ctx)

  -- If a context is sound, its provider signs for its DID and the expiry is not past, then every
  -- token that `DelegateBroadcast` returns verifies, in each mode, unless its key is revoked or
  -- its chain is too long for a depth to count.
  pub broadcast_all-Verifies :
      (n : ℕ) (caps : List Capability) (mode : SelfSignMode) (ts : List Token) (t : Token)
      → IsSound marshal trust now ctx
      → (broadcast_all rand marshal now ctx n sub top exp caps mode).0 ≡ ok ts
      → Memᴰ t ts
      → Fit marshal trust rand now ctx t
      → verify marshal trust t now ctx.revoke ≡ ok tt
  unfolding broadcast_all
  broadcast_all-Verifies n [] mode ts t s h i fit =
      let none : ts ≡ [] = cc in absurd (Memᴰ.not-nil (subst (λ l. Memᴰ t l) none i))
  broadcast_all-Verifies n (c ∷ cs) mode ts t s h i fit =
      elim (close-cases rand marshal mode _ _ ts t h i) [
        | inl j ↦ broadcasts-Verifies mode n c cs t s j fit
        | inr (gs, e, j) ↦
            grant-Verifies marshal trust rand now ctx.revoke _ _ broadcast sub empty_did (top ∷ [])
              exp 0 (c ∷ cs) gs t
              (subst (SignsFor marshal trust) (sym (broadcasts-provider mode n (c ∷ cs))) signs)
              later refl e j fit.fresh
      ]
