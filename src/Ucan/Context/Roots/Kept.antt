-- ===== src/Ucan/Context/Roots/Kept.antt =====
-- lib/ucan/context.go: what `AddRoots` keeps of the side chain for require.
use mathlib.Core.List.Memᴰ
use device_management_servic.Common.{
  ℕ, String, Bool-cases, Option-cases, true, not, is_ok, str_eq, str_eq_iff, List, [], ◌∷◌, Memᴰ,
  delete_func-Memᴰ, Result, ok, ◌≡◌, refl, subst, sym, ◌⊎◌, inl, inr,
}
use device_management_servic.Common.Map.{Map, lookup, insert}
use device_management_servic.Ucan.Did.{Did, TrustContext}
use device_management_servic.Ucan.Token.{Token, issuer, RevocationSet}
use device_management_servic.Ucan.Allow.{subsumes}
use device_management_servic.Ucan.Allow.Laws.{subsumes-live}
use device_management_servic.Ucan.Verify.{verify}
use device_management_servic.Ucan.Verify.Later.{verify-live}
use device_management_servic.Ucan.Context.State.{
  Context, or_nil, get_tokens, get_require_tokens, get_require_anchors, get_provide_anchors,
}
use device_management_servic.Ucan.Context.State.Listed.{
  Under, insert-Under, insert-Under_other, Under-get_tokens, get_tokens-keeps,
}
use device_management_servic.Ucan.Context.Roots.{
  add_roots, and_then, add_root_dids, add_revocations, add_requires, add_provides, verified,
  clean_requires, clean_up_tokens, consume_anchor, consume_require_token,
}
use device_management_servic.Ucan.Context.Roots.Anchors.{consume_anchor-covers, consume_anchor-sub}
use device_management_servic.Ucan.Context.Invariant.{IsSound}
use device_management_servic.Ucan.Context.Invariant.Roots.{clean_provides-frame}

-- The side chain of the issuer of a token has the token, or one that subsumes it.
pub Accepted : Map (List Token) → Token → Type 0
Accepted m t = (v : Token) × Under m (issuer t).uri v × ((v ≡ t) ⊎ (subsumes v t ≡ true))

or_nil-Under :
    (m : Map (List Token)) (key : String) (t : Token)
    → Memᴰ t (or_nil (lookup key m))
    → Under m key t
or_nil-Under m key t i = elim (Option-cases (lookup key m)) [
  | inl p ↦ absurd (Memᴰ.not-nil {a = t} (rw (p, or_nil) at i))
  | inr (l, p) ↦ record { list = l; found = p; member = rw (p, or_nil) at i }
]

module _ (marshal : Token → Result String) (trust : TrustContext) (now : ℕ) where
  -- One round of `cleanUpTokens` keeps a token that verifies.
  round-keeps :
      (r : RevocationSet) (m : Map (List Token)) (a : Did) (key : String) (t : Token)
      → verify marshal trust t now r ≡ ok tt
      → Under m key t
      → Under
          (insert a.uri
            (verified marshal trust now r (get_tokens m a now).0)
            (get_tokens m a now).1)
          key
          t
  unfolding verified
  round-keeps r m a key t v u = elim (Bool-cases (str_eq a.uri key)) [
    | inr other ↦
        insert-Under_other (get_tokens m a now).1 a.uri key _ t other
          (get_tokens-keeps m a now key t u (verify-live marshal trust now r t v))
    | inl same ↦
        let p = (str_eq_iff a.uri key).0 same in
        let held : Under m a.uri t = rw p u in
        let listed = Under-get_tokens m a now t held (verify-live marshal trust now r t v) in
        subst
          (λ k.
            Under
              (insert a.uri (verified marshal trust now r (get_tokens m a now).0)
                (get_tokens m a now).1)
              k t)
          p
          (insert-Under (get_tokens m a now).1 a.uri _ t
            (delete_func-Memᴰ (λ x. not (is_ok (verify marshal trust x now r))) listed (rw v refl)))
  ]

  clean_requires-keeps :
      (ctx : Context) (anchors : List Did) (key : String) (t : Token)
      → verify marshal trust t now ctx.revoke ≡ ok tt
      → Under ctx.require key t
      → Under (clean_requires marshal trust now ctx anchors).require key t
  unfolding clean_requires get_require_tokens
  clean_requires-keeps ctx [] key t v u = u
  clean_requires-keeps ctx (a ∷ anchors) key t v u =
      clean_requires-keeps
        (record ctx {
          require =
              insert a.uri (verified marshal trust now ctx.revoke (get_tokens ctx.require a now).0)
                (get_tokens ctx.require a now).1;
        })
        anchors key t v (round-keeps ctx.revoke ctx.require a key t v u)

  clean_up_tokens-keeps :
      (ctx : Context) (key : String) (t : Token)
      → verify marshal trust t now ctx.revoke ≡ ok tt
      → Under ctx.require key t
      → Under (clean_up_tokens marshal trust now ctx).require key t
  unfolding clean_up_tokens
  clean_up_tokens-keeps ctx key t v u =
      let c = clean_requires marshal trust now ctx (get_require_anchors ctx) in
      let (p, q, r) = clean_provides-frame marshal trust now c (get_provide_anchors c) in
      subst (λ m. Under m key t) (sym q)
        (clean_requires-keeps ctx (get_require_anchors ctx) key t v u)

  -- A token that covers one which verifies does so as well, in a sound context.
  cover-Verifies :
      (ctx : Context) (t v : Token)
      → IsSound marshal trust now ctx
      → verify marshal trust t now ctx.revoke ≡ ok tt
      → Memᴰ v (consume_anchor (or_nil (lookup (issuer t).uri ctx.require)) t)
      → (v ≡ t) ⊎ (subsumes v t ≡ true)
      → verify marshal trust v now ctx.revoke ≡ ok tt
  cover-Verifies ctx t v s h i (inl e) = rw e h
  cover-Verifies ctx t v s h i (inr b) =
      elim (consume_anchor-sub (or_nil (lookup (issuer t).uri ctx.require)) t v i) [
        | inr e ↦ rw e h
        | inl j ↦
            elim (s.require_sound (issuer t).uri v (or_nil-Under ctx.require (issuer t).uri v j)) [
              | inr valid ↦ valid
              | inl late ↦
                  cc (subsumes-live now v t b (verify-live marshal trust now ctx.revoke t h), late)
            ]
      ]

  one_require :
      (ctx : Context) (t : Token)
      → verify marshal trust t now ctx.revoke ≡ ok tt
      → add_roots marshal trust now ctx [] (t ∷ []) [] []
        ≡ (ok tt, clean_up_tokens marshal trust now (consume_require_token ctx t))
  unfolding add_roots and_then add_root_dids add_revocations add_requires add_provides
  one_require ctx t v = rw (v, add_requires, add_roots, and_then) refl

  -- A token that verifies is accepted for the side chain for require, and stays there or is
  -- subsumed by a token there.
  pub add_roots-Accepted :
      (ctx : Context) (t : Token)
      → IsSound marshal trust now ctx
      → verify marshal trust t now ctx.revoke ≡ ok tt
      → ((add_roots marshal trust now ctx [] (t ∷ []) [] []).0 ≡ ok tt)
        × Accepted (add_roots marshal trust now ctx [] (t ∷ []) [] []).1.require t
  unfolding Accepted consume_require_token
  add_roots-Accepted ctx t s h =
      let list = or_nil (lookup (issuer t).uri ctx.require) in
      let (v, i, covers) = consume_anchor-covers list t t (inr refl) in
      rw (one_require ctx t h) (
        refl,
        (
          v,
          clean_up_tokens-keeps (consume_require_token ctx t) (issuer t).uri v
              (cover-Verifies ctx t v s h i covers)
              (insert-Under ctx.require (issuer t).uri (consume_anchor list t) v i),
          covers,
        ),
      )
