-- ===== src/Ucan/Context/Invariant/Later.antt =====
-- lib/ucan/context.go: a sound context stays sound as time passes and as revocations are dropped,
-- by `RemoveRoots` or the garbage collector.
use device_management_servic.Common.{
  ℕ, ◌≤◌, String, true, List, [], ◌∷◌, none, Option-cases, Result, ◌≡◌, refl, arith, inl, inr, Memᴰ,
  Memᴰ-delete_func, Bool-cases, is_nil, str_eq, delete_func,
}
use device_management_servic.Common.Map.{Map, lookup, erase, lookup-erase, lookup-prune}
use device_management_servic.Ucan.Did.{Did, TrustContext}
use device_management_servic.Ucan.Token.{
  Token, byo, root, chained, issuer, nonce, expire_before, RevocationSet, revoked, revocation_key,
}
use device_management_servic.Ucan.Verify.Later.{RevokesLess, verify-later}
use device_management_servic.Ucan.Context.State.{Context, live}
use device_management_servic.Ucan.Context.Roots.{
  remove_token, remove_tokens, remove_revocations, remove_roots,
}
use device_management_servic.Ucan.Context.Discard.{gc_tokens, gc_revocations}
use device_management_servic.Ucan.Context.Every.{
  Every, Every-insert, Every-erase, Every-lookup, Every-prune,
}
use device_management_servic.Ucan.Context.Invariant.{Fresh, Held, Chained, SoundFor, IsSound}

expire_before_mono :
    (t : Token) (d e : ℕ) → d ≤ e → expire_before t d ≡ true → expire_before t e ≡ true
unfolding expire_before
expire_before_mono byo d e h x = refl
expire_before_mono (root c) d e h x = ground arith
expire_before_mono (chained c p) d e h x = ground (arith, expire_before_mono p d e h)

RevokesLess-refl : (r : RevocationSet) → RevokesLess r r
RevokesLess-refl r key h = h

-- Fewer entries revoke fewer keys.
fewer-RevokesLess :
    (q r : RevocationSet)
    → ((key : String) → lookup key r ≡ none → lookup key q ≡ none)
    → RevokesLess q r
unfolding revoked
fewer-RevokesLess q r h key n = elim (Option-cases (lookup key r)) [
  | inl p ↦ rw (h key p)
  | inr (t, p) ↦ cc (rw p at n)
]

remove_revocations-none :
    (r : RevocationSet) (ts : List Token) (key : String)
    → lookup key r ≡ none
    → lookup key (remove_revocations r ts) ≡ none
unfolding remove_revocations
remove_revocations-none r [] key h = h
remove_revocations-none r (t ∷ ts) key h =
    remove_revocations-none (erase (revocation_key t) r) ts key
      (ground (arith, lookup-erase (revocation_key t) key r))

remove_token-Every :
    (P : String → Token → Type 0) (m : Map (List Token)) (t : Token)
    → Every P m
    → Every P (remove_token m t)
unfolding remove_token
remove_token-Every P m t e = elim (Option-cases (lookup (issuer t).uri m)) [
  | inl p ↦ rw (p, remove_token) e
  | inr (l, p) ↦ elim (Bool-cases (is_nil (delete_func l (λ ot. str_eq (nonce t) (nonce ot))))) [
    | inl n ↦ rw (p, n, remove_token) (Every-erase P (issuer t).uri m e)
    | inr n ↦
        rw (p, n, remove_token)
          (Every-insert P (issuer t).uri _ m
            (λ u i.
              Every-lookup P (issuer t).uri m e p u
                (Memᴰ-delete_func l (λ ot. str_eq (nonce t) (nonce ot)) i).0)
            e)
  ]
]

remove_tokens-Every :
    (P : String → Token → Type 0) (m : Map (List Token)) (ts : List Token)
    → Every P m
    → Every P (remove_tokens m ts)
unfolding remove_tokens
remove_tokens-Every P m [] e = e
remove_tokens-Every P m (t ∷ ts) e =
    remove_tokens-Every P (remove_token m t) ts (remove_token-Every P m t e)

module _ (marshal : Token → Result String) (trust : TrustContext) (now later : ℕ)
    (after : now ≤ later) where
  Fresh-later :
      (q r : RevocationSet) (t : Token)
      → RevokesLess q r
      → Fresh marshal trust now r t
      → Fresh marshal trust later q t
  Fresh-later q r t l (inl x) = inl (expire_before_mono t now later after x)
  Fresh-later q r t l (inr v) = elim (Bool-cases (expire_before t later)) [
    | inl x ↦ inl x
    | inr x ↦ inr (verify-later marshal trust now later q r t v l x)
  ]

  -- The same tokens, at a later time, with fewer revocations.
  pub SoundFor-later :
      (q r : RevocationSet) (ctx : Context)
      → RevokesLess q r
      → SoundFor marshal trust now r ctx
      → SoundFor marshal trust later q (record ctx { revoke = q })
  SoundFor-later q r ctx l s = record {
    known = refl;
    tokens_sound = λ k t u. let (e, f) = s.tokens_sound k t u in (e, Fresh-later q r t l f);
    require_sound = λ k t u. Fresh-later q r t l (s.require_sound k t u);
    provide_sound = λ k t u. Fresh-later q r t l (s.provide_sound k t u);
  }

  -- Time passes.
  pub IsSound-later :
      (ctx : Context) → IsSound marshal trust now ctx → IsSound marshal trust later ctx
  IsSound-later ctx s = SoundFor-later ctx.revoke ctx.revoke ctx (RevokesLess-refl ctx.revoke) s

module _ (marshal : Token → Result String) (trust : TrustContext) (now : ℕ) where
  -- The garbage collector keeps a sound context sound, whatever time it reads.
  pub gc_tokens-IsSound :
      (ctx : Context) (at : ℕ)
      → IsSound marshal trust now ctx
      → IsSound marshal trust now (gc_tokens ctx at)
  unfolding gc_tokens gc_revocations live
  gc_tokens-IsSound ctx at s =
      let q = gc_revocations ctx.revoke at in
      let s' =
        SoundFor-later marshal trust now now (omega arith) q ctx.revoke ctx
          (fewer-RevokesLess q ctx.revoke
            (lookup-prune (λ t. t) (λ t. expire_before t at) ctx.revoke))
          s in
      record {
        known = refl;
        tokens_sound =
            Every-prune (Held marshal trust now q) (live at) is_nil ctx.tokens drop s'.tokens_sound;
        require_sound =
            Every-prune (Chained marshal trust now q) (live at) is_nil ctx.require drop
              s'.require_sound;
        provide_sound =
            Every-prune (Chained marshal trust now q) (live at) is_nil ctx.provide drop
              s'.provide_sound;
      }
    where
      drop : (l : List Token) (t : Token) → Memᴰ t (live at l) → Memᴰ t l
      drop l t i = (Memᴰ-delete_func l (λ u. expire_before u at) i).0

  -- `RemoveRoots` keeps a sound context sound, also where it takes revocations back.
  pub remove_roots-IsSound :
      (ctx : Context) (roots : List Did) (require provide revoke : List Token)
      → IsSound marshal trust now ctx
      → IsSound marshal trust now (remove_roots ctx roots require provide revoke)
  unfolding remove_roots
  remove_roots-IsSound ctx roots require provide revoke s =
      let q = remove_revocations ctx.revoke revoke in
      let s' =
        SoundFor-later marshal trust now now (omega arith) q ctx.revoke ctx
          (fewer-RevokesLess q ctx.revoke (remove_revocations-none ctx.revoke revoke)) s in
      record {
        known = refl;
        tokens_sound = s'.tokens_sound;
        require_sound =
            remove_tokens-Every (Chained marshal trust now q) ctx.require require s'.require_sound;
        provide_sound =
            remove_tokens-Every (Chained marshal trust now q) ctx.provide provide s'.provide_sound;
      }
