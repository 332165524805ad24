-- ===== src/Ucan/Context/Provide/Verified.antt =====
-- lib/ucan/context.go: the tokens that a sound context issues verify.
use mathlib.Core.List.Memᴰ
use device_management_servic.Common.{
  ℕ, suc, ◌≤◌, ◌+◌, String, true, false, List, [], ◌∷◌, Result, ok, ◌≡◌, refl, ap, arith, inl, inr,
  Memᴰ, length, and-true,
}
use device_management_servic.Ucan.Capability.{Capability}
use device_management_servic.Ucan.Did.{Did, Provider, TrustContext}
use device_management_servic.Ucan.Token.{
  Token, Action, u64_mod, is_revoke, revoked, revocation_key, invoke, verify_depth,
}
use device_management_servic.Ucan.Token.Links.{chain_of}
use device_management_servic.Ucan.Allow.{allow_delegation, chain_allows, needed_depth}
use device_management_servic.Ucan.Verify.{verify}
use device_management_servic.Ucan.Delegate.{delegate_as, delegate_invocation}
use device_management_servic.Ucan.Delegate.Roundtrip.{
  SignsFor, delegate-verify, delegate_as-issued, sign_token-chained, issued,
}
use device_management_servic.Ucan.Context.State.{
  Context, context_did, get_subject_tokens, get_provide_anchors,
}
use device_management_servic.Ucan.Context.State.Listed.{get_tokens-Under}
use device_management_servic.Ucan.Context.Invariant.{IsSound}
use device_management_servic.Ucan.Context.Provide.{
  issue_from, issue_anchors, SelfSignMode, self_sign_no, self_sign_also, self_sign_only,
  invocations, may_invoke, make_invocation,
}
use device_management_servic.Ucan.Context.Provide.Issued.{
  Made, Supplies, issue_from-Made, issue_anchors-Made,
}

module _ (marshal : Token → Result String) (trust : TrustContext) (rand : ℕ → Result String)
    (now : ℕ) (ctx : Context) where
  -- What a new token needs besides: its key is not revoked yet, and its chain is no longer than a
  -- depth can count.
  pub record Fit (t : Token) : Type 0 where
    pub fresh : revoked ctx.revoke (revocation_key t) ≡ false
    pub short : 1 + length (chain_of t) ≤ u64_mod

  abbrev Verifies : Token → Type 0
  Verifies t = verify marshal trust t now ctx.revoke ≡ ok tt

  allow_delegation-chain :
      (p : Token) (act : Action) (iss aud : Did) (topics : List Capability) (exp : ℕ)
      (c : Capability)
      → allow_delegation p act iss aud topics exp c ≡ true
      → chain_allows p iss aud topics exp c ≡ true
  unfolding allow_delegation
  allow_delegation-chain p act iss aud topics exp c h =
      (and-true (verify_depth p (needed_depth act)) (chain_allows p iss aud topics exp c) h).1

  -- An issued token is one link longer than the one above it.
  delegate_as-length :
      (p t : Token) (act : Action) (provider : Provider) (drawn : Result String) (sub aud : Did)
      (topics : List Capability) (exp dep : ℕ) (caps : List Capability)
      → delegate_as marshal p act provider drawn sub aud topics exp dep caps ≡ ok t
      → length (chain_of t) ≡ suc (length (chain_of p))
  delegate_as-length p t act provider drawn sub aud topics exp dep caps h =
      let (d, v, w) =
        delegate_as-issued marshal trust p t act provider drawn sub aud topics exp dep caps h in
      let (b, g, x, y, same) =
        sign_token-chained marshal trust provider
          (issued marshal trust act provider.did w.0 sub aud topics exp dep caps "") p t w.1 in
      ap (λ u. length (chain_of u)) same

  pub Supplies-provide : IsSound marshal trust now ctx → Supplies Verifies now ctx
  Supplies-provide s key p u live = elim (s.provide_sound key p u) [
    | inl gone ↦ cc (gone, live)
    | inr v ↦ v
  ]

  Verifies-own :
      IsSound marshal trust now ctx
      → (p : Token) → Memᴰ p (get_subject_tokens ctx (context_did ctx) now).0
      → Verifies p
  unfolding get_subject_tokens
  Verifies-own s p i =
      let (u, live) = get_tokens-Under ctx.tokens (context_did ctx) now p i in
      elim (s.tokens_sound (context_did ctx).uri p u).1 [ inl gone ↦ cc (gone, live) | inr v ↦ v ]

  module _ (signs : SignsFor marshal trust ctx.provider) (sub aud : Did) (c : Capability)
      (cs : List Capability) where
    pub delegate_as-Verifies :
        (p t : Token) (act : Action) (drawn : Result String) (topics : List Capability)
        (exp dep : ℕ)
        → Verifies p
        → now ≤ exp
        → is_revoke act ≡ false
        → ((x : Capability)
            → Memᴰ x (c ∷ cs)
            → allow_delegation p act (context_did ctx) aud topics exp x ≡ true)
        → delegate_as marshal p act ctx.provider drawn sub aud topics exp dep (c ∷ cs) ≡ ok t
        → Fit t
        → Verifies t
    delegate_as-Verifies p t act drawn topics exp dep v later nr may made fit =
        delegate-verify marshal trust now ctx.revoke p t act ctx.provider drawn sub aud topics exp
          dep c cs v signs
          (let same =
              delegate_as-length p t act ctx.provider drawn sub aud topics exp dep (c ∷ cs) made in
            let short = fit.short in omega arith)
          (λ x k. allow_delegation-chain p act (context_did ctx) aud topics exp x (may x k)) later
          nr fit.fresh made

    module _ (sound : IsSound marshal trust now ctx) where
      Made-invocation :
          (exp : ℕ) (t : Token)
          → now ≤ exp
          → Made
              (may_invoke rand marshal (context_did ctx) aud exp)
              (make_invocation rand marshal ctx.provider sub aud exp)
              (c ∷ cs)
              Verifies
              t
          → Fit t
          → Verifies t
      unfolding delegate_invocation
      Made-invocation exp t later m fit =
          delegate_as-Verifies m.above t invoke m.drawn [] exp 0 m.source later refl m.may m.made
            fit

      -- The context after the tokens about itself have been read.
      abbrev read : Context
      read = (get_subject_tokens ctx (context_did ctx) now).1

      abbrev own_part : ℕ → Did → ℕ → List Token × ℕ
      own_part n target exp =
          issue_from rand (may_invoke rand marshal (context_did ctx) aud exp)
            (make_invocation rand marshal ctx.provider sub aud exp) (c ∷ cs) target n
            (get_subject_tokens ctx (context_did ctx) now).0

      abbrev more_part : ℕ → ℕ → List Token
      more_part n exp =
          (issue_anchors rand (may_invoke rand marshal (context_did ctx) aud exp)
            (make_invocation rand marshal ctx.provider sub aud exp) (c ∷ cs) now read n
            (get_provide_anchors read)).0

      own_part-Verifies :
          (n : ℕ) (target : Did) (exp : ℕ) (t : Token)
          → now ≤ exp
          → Memᴰ t (own_part n target exp).0
          → Fit t
          → Verifies t
      own_part-Verifies n target exp t later i fit =
          Made-invocation exp t later
            (issue_from-Made rand _ _ c cs Verifies target n _ (Verifies-own sound) t i) fit

      more_part-Verifies :
          (n exp : ℕ) (t : Token) → now ≤ exp → Memᴰ t (more_part n exp) → Fit t → Verifies t
      unfolding get_subject_tokens
      more_part-Verifies n exp t later i fit =
          Made-invocation exp t later
            (issue_anchors-Made rand _ _ c cs Verifies now read n _ (Supplies-provide sound) t i)
            fit

      pub invocations-Verifies :
          (mode : SelfSignMode) (n : ℕ) (target : Did) (exp : ℕ) (t : Token)
          → now ≤ exp
          → Memᴰ t (invocations rand marshal mode now ctx n target sub aud exp (c ∷ cs)).0
          → Fit t
          → Verifies t
      unfolding invocations
      invocations-Verifies self_sign_only n target exp t later i fit =
          own_part-Verifies n target exp t later i fit
      invocations-Verifies self_sign_no n target exp t later i fit =
          elim (Memᴰ.append_cases (own_part n target exp).0 i) [
            | inl j ↦ own_part-Verifies n target exp t later j fit
            | inr j ↦ more_part-Verifies (own_part n target exp).1 exp t later j fit
          ]
      invocations-Verifies self_sign_also n target exp t later i fit =
          elim (Memᴰ.append_cases (own_part n target exp).0 i) [
            | inl j ↦ own_part-Verifies n target exp t later j fit
            | inr j ↦ more_part-Verifies (own_part n target exp).1 exp t later j fit
          ]
