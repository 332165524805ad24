-- ===== src/Ucan/Context/Invariant/Roots.antt =====
-- lib/ucan/context.go: `AddRoots`, when it succeeds, leaves a sound context.
use mathlib.Core.List.Memᴰ
use device_management_servic.Common.{
  ℕ, String, not, List, [], ◌∷◌, Result, ok, err, is_ok, ◌≡◌, ◌≢◌, refl, sym, ap, subst, ◌∙◌, arith,
  ◌⊎◌, inl, inr, Memᴰ, Memᴰ-delete_func,
}
use device_management_servic.Common.Map.{Map, insert, lookup-keys}
use device_management_servic.Ucan.Did.{Did, TrustContext}
use device_management_servic.Ucan.Token.{Token, subject, RevocationSet}
use device_management_servic.Ucan.Verify.{verify}
use device_management_servic.Ucan.Context.State.{
  Context, dids, get_tokens, get_require_tokens, get_provide_tokens, get_require_anchors,
  get_provide_anchors,
}
use device_management_servic.Ucan.Context.State.Listed.{Under, Under-insert_cases, get_tokens-sub}
use device_management_servic.Ucan.Context.Roots.{
  add_root_dids, and_then, add_revocations, add_requires, add_provides, add_roots,
  consume_revoke_token, consume_require_token, consume_provide_token, verified, clean_requires,
  clean_provides, clean_up_tokens,
}
use device_management_servic.Ucan.Context.Every.{Every, Under-update_all}
use device_management_servic.Ucan.Context.Invariant.{IsSound}

-- The tokens stand under their subjects.
abbrev pub Keyed : Context → Type 0
Keyed ctx = Every (λ key t. (subject t).uri ≡ key) ctx.tokens

pub tokens-add_root_dids :
    (ctx : Context) (ds : List Did) → (add_root_dids ctx ds).tokens ≡ ctx.tokens
unfolding add_root_dids
tokens-add_root_dids ctx [] = refl
tokens-add_root_dids ctx (d ∷ ds) =
    tokens-add_root_dids (record ctx { roots = insert d.uri tt ctx.roots }) ds

and_then-ok :
    (m : Result (Unit {0}) × Context) (k : Context → Result (Unit {0}) × Context)
    → (and_then m k).0 ≡ ok tt
    → ((and_then m k).1 ≡ (k m.1).1) × ((k m.1).0 ≡ ok tt)
unfolding and_then
and_then-ok (ok u, ctx) k h = (refl, h)
and_then-ok (err e, ctx) k h = cc

module _ (marshal : Token → Result String) (trust : TrustContext) (now : ℕ) where
  abbrev Verifies : RevocationSet → Token → Type 0
  Verifies r t = verify marshal trust t now r ≡ ok tt

  pub tokens-add_revocations :
      (ctx : Context) (ts : List Token)
      → (add_revocations marshal trust now ctx ts).1.tokens ≡ ctx.tokens
  unfolding add_revocations consume_revoke_token
  tokens-add_revocations ctx [] = refl
  tokens-add_revocations ctx (t ∷ ts) =
      ground (arith, tokens-add_revocations (consume_revoke_token ctx t) ts)

  pub tokens-add_requires :
      (ctx : Context) (ts : List Token)
      → (add_requires marshal trust now ctx ts).1.tokens ≡ ctx.tokens
  unfolding add_requires consume_require_token
  tokens-add_requires ctx [] = refl
  tokens-add_requires ctx (t ∷ ts) =
      ground (arith, tokens-add_requires (consume_require_token ctx t) ts)

  pub tokens-add_provides :
      (ctx : Context) (ts : List Token)
      → (add_provides marshal trust now ctx ts).1.tokens ≡ ctx.tokens
  unfolding add_provides consume_provide_token
  tokens-add_provides ctx [] = refl
  tokens-add_provides ctx (t ∷ ts) =
      ground (arith, tokens-add_provides (consume_provide_token ctx t) ts)

  verified-Verifies :
      (r : RevocationSet) (l : List Token) (t : Token)
      → Memᴰ t (verified marshal trust now r l)
      → Memᴰ t l × Verifies r t
  unfolding verified
  verified-Verifies r l t i =
      let (j, h) = Memᴰ-delete_func l (λ u. not (is_ok (verify marshal trust u now r))) i in
      (j, ground arith)

  -- After a round of `cleanUpTokens` for one anchor.
  round :
      (m : Map (List Token)) (a : Did) (r : RevocationSet) (key : String) (t : Token)
      → Under
          (insert a.uri
            (verified marshal trust now r (get_tokens m a now).0)
            (get_tokens m a now).1)
          key
          t
      → Verifies r t ⊎ ((a.uri ≢ key) × Under m key t)
  round m a r key t u = elim (Under-insert_cases (get_tokens m a now).1 a.uri key _ t u) [
    | inl (same, i) ↦ inl (verified-Verifies r _ t i).1
    | inr (other, old) ↦ inr (other, get_tokens-sub m a now key t old)
  ]

  abbrev cleaned : RevocationSet → Map (List Token) → Did → Map (List Token)
  cleaned r m a =
      insert a.uri (verified marshal trust now r (get_tokens m a now).0) (get_tokens m a now).1

  -- One step of the case split on which anchor a key belongs to.
  visited :
      (r : RevocationSet) (m : Map (List Token)) (a : Did) (anchors : List Did) (key : String)
      (t : Token)
      → Verifies r t ⊎ (¬ Memᴰ (record { uri = key }) anchors × Under (cleaned r m a) key t)
      → Verifies r t ⊎ (¬ Memᴰ (record { uri = key }) (a ∷ anchors) × Under m key t)
  visited r m a anchors key t (inl v) = inl v
  visited r m a anchors key t (inr (n, u)) = elim (round m a r key t u) [
    | inl v ↦ inl v
    | inr (other, old) ↦ inr (
      λ i. elim (Memᴰ.cases_cons i) [ inl e ↦ other (sym (ap (λ d. d.uri) e)) | inr j ↦ n j ],
      old,
    )
  ]

  abbrev after_require : Context → Did → Context
  after_require ctx a = record ctx { require = cleaned ctx.revoke ctx.require a }

  abbrev after_provide : Context → Did → Context
  after_provide ctx a = record ctx { provide = cleaned ctx.revoke ctx.provide a }

  clean_requires-Verifies :
      (ctx : Context) (anchors : List Did) (key : String) (t : Token)
      → Under (clean_requires marshal trust now ctx anchors).require key t
      → Verifies ctx.revoke t ⊎ (¬ Memᴰ (record { uri = key }) anchors × Under ctx.require key t)
  unfolding clean_requires get_require_tokens
  clean_requires-Verifies ctx [] key t u = inr (Memᴰ.not-nil, u)
  clean_requires-Verifies ctx (a ∷ anchors) key t u =
      visited ctx.revoke ctx.require a anchors key t
        (clean_requires-Verifies (after_require ctx a) anchors key t u)

  clean_provides-Verifies :
      (ctx : Context) (anchors : List Did) (key : String) (t : Token)
      → Under (clean_provides marshal trust now ctx anchors).provide key t
      → Verifies ctx.revoke t ⊎ (¬ Memᴰ (record { uri = key }) anchors × Under ctx.provide key t)
  unfolding clean_provides get_provide_tokens
  clean_provides-Verifies ctx [] key t u = inr (Memᴰ.not-nil, u)
  clean_provides-Verifies ctx (a ∷ anchors) key t u =
      visited ctx.revoke ctx.provide a anchors key t
        (clean_provides-Verifies (after_provide ctx a) anchors key t u)

  pub clean_requires-frame :
      (ctx : Context) (anchors : List Did)
      → ((clean_requires marshal trust now ctx anchors).tokens ≡ ctx.tokens)
        × ((clean_requires marshal trust now ctx anchors).revoke ≡ ctx.revoke)
  unfolding clean_requires get_require_tokens
  clean_requires-frame ctx [] = (refl, refl)
  clean_requires-frame ctx (a ∷ anchors) = clean_requires-frame (after_require ctx a) anchors

  pub clean_provides-frame :
      (ctx : Context) (anchors : List Did)
      → ((clean_provides marshal trust now ctx anchors).tokens ≡ ctx.tokens)
        × ((clean_provides marshal trust now ctx anchors).require ≡ ctx.require)
        × ((clean_provides marshal trust now ctx anchors).revoke ≡ ctx.revoke)
  unfolding clean_provides get_provide_tokens
  clean_provides-frame ctx [] = (refl, refl, refl)
  clean_provides-frame ctx (a ∷ anchors) = clean_provides-frame (after_provide ctx a) anchors

  -- Each key is visited.
  all_visited :
      (r : RevocationSet) (m : Map (List Token)) (key : String) (t : Token)
      → Verifies r t ⊎ (¬ Memᴰ (record { uri = key }) (dids m) × Under m key t)
      → Verifies r t
  all_visited r m key t (inl v) = v
  all_visited r m key t (inr (n, u)) =
      absurd (n (Memᴰ.map (λ k. record { uri = k }) (lookup-keys key m u.found)))

  -- Every stored token verifies, and those by subject stand under their subjects.
  pub record AllVerify (ctx : Context) : Type 0 where
    pub tokens_verify : Every (λ key t. ((subject t).uri ≡ key) × Verifies ctx.revoke t) ctx.tokens
    pub require_verify : Every (λ key t. Verifies ctx.revoke t) ctx.require
    pub provide_verify : Every (λ key t. Verifies ctx.revoke t) ctx.provide

  AllVerify-IsSound : (ctx : Context) → AllVerify ctx → IsSound marshal trust now ctx
  AllVerify-IsSound ctx a = record {
    known = refl;
    tokens_sound = λ key t u. let v = a.tokens_verify key t u in (v.0, inr v.1);
    require_sound = λ key t u. inr (a.require_verify key t u);
    provide_sound = λ key t u. inr (a.provide_verify key t u);
  }

  -- `cleanUpTokens` leaves tokens that verify only.
  clean_up_tokens-AllVerify :
      (ctx : Context) → Keyed ctx → AllVerify (clean_up_tokens marshal trust now ctx)
  unfolding clean_up_tokens
  clean_up_tokens-AllVerify ctx keyed = record {
    tokens_verify = λ key t u.
        let (v, h) =
          Under-update_all (Verifies d.revoke) (verified marshal trust now d.revoke)
            (verified-Verifies d.revoke) d.tokens key t u in
        (keyed key t (subst (λ m. Under m key t) (dp.0 ∙ cp.0) v), h);
    require_verify = λ key t u.
        subst (λ r. Verifies r t) (sym (dp.2 ∙ cp.1))
          (all_visited ctx.revoke ctx.require key t (
            clean_requires-Verifies ctx (get_require_anchors ctx) key t
              (subst (λ m. Under m key t) dp.1 u)));
    provide_verify = λ key t u.
        subst (λ r. Verifies r t) (sym dp.2)
          (all_visited c.revoke c.provide key t
            (clean_provides-Verifies c (get_provide_anchors c) key t u));
  }
    where
      c : Context
      c = clean_requires marshal trust now ctx (get_require_anchors ctx)

      d : Context
      d = clean_provides marshal trust now c (get_provide_anchors c)

      cp : (c.tokens ≡ ctx.tokens) × (c.revoke ≡ ctx.revoke)
      cp = clean_requires-frame ctx (get_require_anchors ctx)

      dp : (d.tokens ≡ c.tokens) × (d.require ≡ c.require) × (d.revoke ≡ c.revoke)
      dp = clean_provides-frame c (get_provide_anchors c)

  abbrev added_revocations : Context → List Did → List Token → Context
  added_revocations ctx roots revoke =
      (add_revocations marshal trust now (add_root_dids ctx roots) revoke).1

  abbrev added_requires : Context → List Token → Context
  added_requires ctx require = (add_requires marshal trust now ctx require).1

  abbrev added_provides : Context → List Token → Context
  added_provides ctx provide = (add_provides marshal trust now ctx provide).1

  add_roots-ok :
      (ctx : Context) (roots : List Did) (require provide revoke : List Token)
      → (add_roots marshal trust now ctx roots require provide revoke).0 ≡ ok tt
      → (add_roots marshal trust now ctx roots require provide revoke).1
        ≡ clean_up_tokens marshal trust now
            (added_provides (added_requires (added_revocations ctx roots revoke) require) provide)
  unfolding add_roots
  add_roots-ok ctx roots require provide revoke h =
      let (e, h) =
        and_then-ok (add_revocations marshal trust now (add_root_dids ctx roots) revoke) _ h in
      let (f, h) = and_then-ok (add_requires marshal trust now _ require) _ h in
      e ∙ f ∙ (and_then-ok (add_provides marshal trust now _ provide) _ h).0

  -- If `AddRoots` succeeds, every stored token verifies at that time against the revocations that
  -- the context then knows, whatever the context held before,
  -- provided that the tokens by subject stood under their subjects.
  pub add_roots-AllVerify :
      (ctx : Context) (roots : List Did) (require provide revoke : List Token)
      → Keyed ctx
      → (add_roots marshal trust now ctx roots require provide revoke).0 ≡ ok tt
      → AllVerify (add_roots marshal trust now ctx roots require provide revoke).1
  add_roots-AllVerify ctx roots require provide revoke keyed h =
      subst AllVerify (sym (add_roots-ok ctx roots require provide revoke h))
        (clean_up_tokens-AllVerify c (λ key t u. keyed key t (subst (λ m. Under m key t) same u)))
    where
      a : Context
      a = added_revocations ctx roots revoke

      b : Context
      b = added_requires a require

      c : Context
      c = added_provides b provide

      same : c.tokens ≡ ctx.tokens
      same =
          tokens-add_provides b provide
          ∙ tokens-add_requires a require
          ∙ tokens-add_revocations (add_root_dids ctx roots) revoke
          ∙ tokens-add_root_dids ctx roots

  pub add_roots-IsSound :
      (ctx : Context) (roots : List Did) (require provide revoke : List Token)
      → Keyed ctx
      → (add_roots marshal trust now ctx roots require provide revoke).0 ≡ ok tt
      → IsSound marshal trust now (add_roots marshal trust now ctx roots require provide revoke).1
  add_roots-IsSound ctx roots require provide revoke keyed h =
      AllVerify-IsSound _ (add_roots-AllVerify ctx roots require provide revoke keyed h)
