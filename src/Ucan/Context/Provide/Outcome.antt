-- ===== src/Ucan/Context/Provide/Outcome.antt =====
-- lib/ucan/context.go: what `DelegateInvocation` returns, in each mode.
use mathlib.Core.List.Memᴰ
use device_management_servic.Common.{
  ℕ, ◌≤◌, String, Bool, ◌>>=◌, List, [], ◌∷◌, ◌++◌, Result, ok, >>=-eq-ok, ◌≡◌, refl, subst, sym,
  ◌⊎◌, inl, inr, Memᴰ,
}
use device_management_servic.Ucan.Capability.{Capability}
use device_management_servic.Ucan.Did.{Did, TrustContext}
use device_management_servic.Ucan.Token.{Token, invoke}
use device_management_servic.Ucan.Verify.{verify}
use device_management_servic.Ucan.Delegate.Roundtrip.{SignsFor}
use device_management_servic.Ucan.Context.State.{Context, get_provide_tokens, get_subject_tokens}
use device_management_servic.Ucan.Context.Invariant.{IsSound}
use device_management_servic.Ucan.Context.Provide.{
  SelfSignMode, self_sign_no, self_sign_also, self_sign_only, close, issue_anchors, invocations,
  invocation_all,
}
use device_management_servic.Ucan.Context.Provide.Grants.{grant-Verifies}
use device_management_servic.Ucan.Context.Provide.Verified.{Fit, invocations-Verifies}

module _ (rand : ℕ → Result String) (marshal : Token → Result String) where
  -- What `close` returns was issued or granted.
  append-cases :
      (issued : List Token) (granted : Result (List Token)) (ts : List Token) (t : Token)
      → (granted >>= (λ gs. ok (issued ++ gs))) ≡ ok ts
      → Memᴰ t ts
      → Memᴰ t issued ⊎ ((gs : List Token) × (granted ≡ ok gs) × Memᴰ t gs)
  append-cases issued granted ts t h i =
      let (gs, e, f) = >>=-eq-ok granted _ h in
      let same : ts ≡ issued ++ gs = cc in
      elim (Memᴰ.append_cases issued (subst (λ l. Memᴰ t l) same i)) [
        | inl j ↦ inl j
        | inr j ↦ inr (gs, e, j)
      ]

  pub close-cases :
      (mode : SelfSignMode) (issued : List Token) (granted : Result (List Token)) (ts : List Token)
      (t : Token)
      → close rand marshal mode issued granted ≡ ok ts
      → Memᴰ t ts
      → Memᴰ t issued ⊎ ((gs : List Token) × (granted ≡ ok gs) × Memᴰ t gs)
  unfolding close
  close-cases self_sign_no [] granted ts t h i = cc
  close-cases self_sign_no (x ∷ xs) granted ts t h i =
      let same : ts ≡ x ∷ xs = cc in inl (subst (λ l. Memᴰ t l) same i)
  close-cases self_sign_also issued granted ts t h i = append-cases issued granted ts t h i
  close-cases self_sign_only issued granted ts t h i = append-cases issued granted ts t h i

  module _ (allows : Token → Capability → Bool)
      (make : Token → Result String → List Capability → Result Token) (provide : List Capability)
      (now : ℕ) where
    pub issue_anchors-provider :
        (ctx : Context) (n : ℕ) (anchors : List Did)
        → (issue_anchors rand allows make provide now ctx n anchors).1.provider ≡ ctx.provider
    unfolding issue_anchors get_provide_tokens
    issue_anchors-provider ctx n [] = refl
    issue_anchors-provider ctx n (a ∷ anchors) =
        issue_anchors-provider (get_provide_tokens ctx a now).1 _ anchors

  invocations-provider :
      (mode : SelfSignMode) (now : ℕ) (ctx : Context) (n : ℕ) (target sub aud : Did) (exp : ℕ)
      (caps : List Capability)
      → (invocations rand marshal mode now ctx n target sub aud exp caps).1.provider ≡ ctx.provider
  unfolding invocations get_subject_tokens
  invocations-provider self_sign_no now ctx n target sub aud exp caps =
      issue_anchors-provider _ _ _ _ _ _ _
  invocations-provider self_sign_also now ctx n target sub aud exp caps =
      issue_anchors-provider _ _ _ _ _ _ _
  invocations-provider self_sign_only now ctx n target sub aud exp caps = refl

  -- If a context is sound, its provider signs for its DID and the expiry is not past, then every
  -- token that `DelegateInvocation` returns verifies, in each mode, unless its key is revoked or
  -- its chain is too long for a depth to count.
  pub invocation_all-Verifies :
      (trust : TrustContext) (now : ℕ) (ctx : Context) (n : ℕ) (target sub aud : Did) (exp : ℕ)
      (caps : List Capability) (mode : SelfSignMode) (ts : List Token) (t : Token)
      → IsSound marshal trust now ctx
      → SignsFor marshal trust ctx.provider
      → now ≤ exp
      → (invocation_all rand marshal now ctx n target sub aud exp caps mode).0 ≡ ok ts
      → Memᴰ t ts
      → Fit marshal trust rand now ctx t
      → verify marshal trust t now ctx.revoke ≡ ok tt
  unfolding invocation_all
  invocation_all-Verifies trust now ctx n target sub aud exp [] mode ts t s signs later h i fit =
      let none : ts ≡ [] = cc in absurd (Memᴰ.not-nil (subst (λ l. Memᴰ t l) none i))
  invocation_all-Verifies trust now ctx n target sub aud exp (c ∷ cs) mode ts t s signs later h i
        fit =
      elim (close-cases mode _ _ ts t h i) [
        | inl j ↦
            invocations-Verifies marshal trust rand now ctx signs sub aud c cs s mode n target exp t
              later j fit
        | inr (gs, e, j) ↦
            grant-Verifies marshal trust rand now ctx.revoke _ _ invoke sub aud [] exp 0 (c ∷ cs) gs
              t
              (subst (SignsFor marshal trust)
                (sym (invocations-provider mode now ctx n target sub aud exp (c ∷ cs))) signs)
              later refl e j fit.fresh
      ]
