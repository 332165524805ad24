-- ===== src/Ucan/Context/Roots/Failed.antt =====
-- lib/ucan/context.go: what a failed `AddRoots` leaves behind.
use device_management_servic.Common.{
  ℕ, String, true, false, List, Memᴰ, Result, ok, err, ◌≡◌, ◌≢◌, refl, ◌∙◌, inl, inr,
}
use device_management_servic.Ucan.Did.{Did, TrustContext}
use device_management_servic.Ucan.Token.{
  Token, action, is_revoke, expire_before, revoked, revocation_key,
}
use device_management_servic.Ucan.Token.Links.{chain_of}
use device_management_servic.Ucan.Verify.Later.{revoked-verify}
use device_management_servic.Ucan.Context.State.{Context}
use device_management_servic.Ucan.Context.State.Listed.{Under}
use device_management_servic.Ucan.Context.Invariant.{IsSound}
use device_management_servic.Ucan.Context.Roots.{
  add_roots, and_then, add_root_dids, add_revocations, add_requires, add_provides,
}
use device_management_servic.Ucan.Context.Invariant.Roots.{
  tokens-add_root_dids, tokens-add_revocations, tokens-add_requires, tokens-add_provides,
}

-- A chain of steps that leave the tokens alone wherever they fail.
and_then-tokens :
    (m : Result (Unit {0}) × Context) (k : Context → Result (Unit {0}) × Context) (ctx : Context)
    → m.1.tokens ≡ ctx.tokens
    → ((k m.1).0 ≢ ok tt → (k m.1).1.tokens ≡ ctx.tokens)
    → (and_then m k).0 ≢ ok tt
    → (and_then m k).1.tokens ≡ ctx.tokens
unfolding and_then
and_then-tokens (ok u, c) k ctx same next h = next h
and_then-tokens (err e, c) k ctx same next h = same

module _ (marshal : Token → Result String) (trust : TrustContext) (now : ℕ) where
  -- If `AddRoots` fails, the tokens by subject are as they were: those that the revocations
  -- recorded by then revoke are not dropped.
  pub add_roots-failed :
      (ctx : Context) (roots : List Did) (require provide revoke : List Token)
      → (add_roots marshal trust now ctx roots require provide revoke).0 ≢ ok tt
      → (add_roots marshal trust now ctx roots require provide revoke).1.tokens ≡ ctx.tokens
  unfolding add_roots
  add_roots-failed ctx roots require provide revoke h =
      and_then-tokens a _ ctx in_a
        (and_then-tokens b _ ctx in_b (and_then-tokens c _ ctx in_c (λ n. absurd (n refl)))) h
    where
      a : Result (Unit {0}) × Context
      a = add_revocations marshal trust now (add_root_dids ctx roots) revoke

      b : Result (Unit {0}) × Context
      b = add_requires marshal trust now a.1 require

      c : Result (Unit {0}) × Context
      c = add_provides marshal trust now b.1 provide

      in_a : a.1.tokens ≡ ctx.tokens
      in_a =
          tokens-add_revocations marshal trust now (add_root_dids ctx roots) revoke
          ∙ tokens-add_root_dids ctx roots

      in_b : b.1.tokens ≡ ctx.tokens
      in_b = tokens-add_requires marshal trust now a.1 require ∙ in_a

      in_c : c.1.tokens ≡ ctx.tokens
      in_c = tokens-add_provides marshal trust now b.1 provide ∙ in_b

  -- If `AddRoots` fails, whatever it was given, and the revocations that it had recorded by then
  -- revoke a link of a stored token by subject, which has not expired and is no revocation, then
  -- the context that it leaves is not sound: the token stays and does not verify.
  pub add_roots-unsound :
      (ctx : Context) (roots : List Did) (require provide revoke : List Token) (key : String)
      (t l : Token)
      → (add_roots marshal trust now ctx roots require provide revoke).0 ≢ ok tt
      → Under ctx.tokens key t
      → expire_before t now ≡ false
      → is_revoke (action t) ≡ false
      → Memᴰ l (chain_of t)
      → revoked
          (add_roots marshal trust now ctx roots require provide revoke).1.revoke
          (revocation_key l)
        ≡ true
      → ¬ IsSound marshal trust now (add_roots marshal trust now ctx roots require provide revoke).1
  add_roots-unsound ctx roots require provide revoke key t l fails held live plain link gone s =
      let left = (add_roots marshal trust now ctx roots require provide revoke).1 in
      let stays = add_roots-failed ctx roots require provide revoke fails in
      let kept : Under left.tokens key t = rw stays held in
      elim (s.tokens_sound key t kept).1 [
        | inl late ↦ cc (late, live)
        | inr valid ↦ revoked-verify marshal trust now left.revoke t l plain link gone valid
      ]
