-- ===== src/Ucan/Context/Provide/Revokes.antt =====
-- lib/ucan/context.go: a revocation from its issue by `Revoke` to its effect in `AddRoots`.
use device_management_servic.Common.{
  ℕ, ◌≤◌, String, true, false, [], ◌∷◌, Result, ok, ◌≡◌, ◌≢◌, refl, sym, subst, ap, ◌∙◌, arith,
  Memᴰ, str_eq_iff,
}
use device_management_servic.Common.Map.{insert, lookup-insert}
use device_management_servic.Ucan.Did.{TrustContext}
use device_management_servic.Ucan.Token.{
  Token, byo, action, is_revoke, expire, RevocationSet, revoked, revocation_key,
}
use device_management_servic.Ucan.Token.Links.{chain_of}
use device_management_servic.Ucan.Verify.{verify}
use device_management_servic.Ucan.Verify.Later.{revoked-verify}
use device_management_servic.Ucan.Delegate.Roundtrip.{SignsFor}
use device_management_servic.Ucan.Context.State.{Context, get_require_anchors, get_provide_anchors}
use device_management_servic.Ucan.Context.Roots.{
  add_roots, and_then, add_root_dids, add_revocations, add_requires, add_provides,
  consume_revoke_token, clean_up_tokens, clean_requires,
}
use device_management_servic.Ucan.Context.Invariant.Roots.{
  clean_requires-frame, clean_provides-frame,
}
use device_management_servic.Ucan.Context.Provide.{revoke_token}
use device_management_servic.Ucan.Context.Provide.Grants.{revoke_token-Verifies}

revoked-insert :
    (r : RevocationSet) (key : String) (u : Token) → revoked (insert key u r) key ≡ true
unfolding revoked
revoked-insert r key u = ground (arith, lookup-insert key key u r, str_eq_iff key key)

module _ (marshal : Token → Result String) (trust : TrustContext) (rand : ℕ → Result String)
    (now : ℕ) where
  clean_up_tokens-revoke :
      (ctx : Context) → (clean_up_tokens marshal trust now ctx).revoke ≡ ctx.revoke
  unfolding clean_up_tokens
  clean_up_tokens-revoke ctx =
      let c = clean_requires marshal trust now ctx (get_require_anchors ctx) in
      (clean_provides-frame marshal trust now c (get_provide_anchors c)).2
      ∙ (clean_requires-frame marshal trust now ctx (get_require_anchors ctx)).1

  add_roots-revocation :
      (ctx : Context) (u : Token)
      → is_revoke (action u) ≡ true
      → verify marshal trust u now ctx.revoke ≡ ok tt
      → ((add_roots marshal trust now ctx [] [] [] (u ∷ [])).0 ≡ ok tt)
        × ((add_roots marshal trust now ctx [] [] [] (u ∷ [])).1
            ≡ clean_up_tokens marshal trust now (consume_revoke_token ctx u))
  unfolding add_roots and_then add_root_dids add_revocations add_requires add_provides
  add_roots-revocation ctx u isr v = (rw (isr, v) refl, rw (isr, v) refl)

  -- If a context revokes a token that it issued, with an expiry that is not past, and its provider
  -- signs for its DID, then any context accepts the revocation by `AddRoots`, and against what that
  -- context then knows no token verifies at any time that has the revoked one in its chain and is
  -- no revocation itself.
  pub revoke_token-add_roots :
      (owner receiver : Context) (t u : Token)
      → t ≢ byo
      → SignsFor marshal trust owner.provider
      → now ≤ expire t
      → revoke_token rand marshal owner t ≡ ok u
      → ((add_roots marshal trust now receiver [] [] [] (u ∷ [])).0 ≡ ok tt)
        × ((later : ℕ) (s : Token)
            → Memᴰ t (chain_of s)
            → is_revoke (action s) ≡ false
            → verify marshal trust s later
                (add_roots marshal trust now receiver [] [] [] (u ∷ [])).1.revoke
              ≢ ok tt)
  unfolding consume_revoke_token
  revoke_token-add_roots owner receiver t u n signs live h =
      let (v, isr, key) =
        revoke_token-Verifies marshal trust rand now receiver.revoke owner t u n signs live h in
      let (fine, after) = add_roots-revocation receiver u isr v in
      let known : (add_roots marshal trust now receiver [] [] [] (u ∷ [])).1.revoke
          ≡ insert (revocation_key u) u receiver.revoke =
        ap (λ c. c.revoke) after ∙ clean_up_tokens-revoke (consume_revoke_token receiver u) in
      (
        fine,
        λ later s m k. revoked-verify marshal trust later _ s t k m (
            subst (λ r. revoked r (revocation_key t) ≡ true) (sym known)
              (subst (λ x. revoked (insert x u receiver.revoke) (revocation_key t) ≡ true) (sym key)
                (revoked-insert receiver.revoke (revocation_key t) u))),
      )
