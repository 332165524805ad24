-- ===== src/Ucan/Context/Roots.antt =====
-- lib/ucan/context.go: the roots, side chains and revocations of a context.
pub mod Anchors
pub mod Failed
pub mod Kept
use device_management_servic.Common.{
  ℕ, String, Bool, true, false, not, List, [], ◌∷◌, ◌++◌, none, some, Result, ok, err, bad_token,
  delete_func, if◌then◌else◌, is_nil, is_ok, str_eq, any, ◌>>=◌, ◌>>◌,
}
use device_management_servic.Common.Map.{Map, lookup, insert, erase, update_all}
use device_management_servic.Ucan.Did.{Did, Provider, TrustContext}
use device_management_servic.Ucan.Token.{
  Token, is_revoke, action, issuer, nonce, RevocationSet, revoked, revocation_key,
}
use device_management_servic.Ucan.Allow.{subsumes}
use device_management_servic.Ucan.Verify.{verify}
use device_management_servic.Ucan.Context.State.{
  Context, or_nil, get_require_anchors, get_provide_anchors, get_require_tokens, get_provide_tokens,
}

-- The loop of `consumeAnchorToken`: `true` if a stored token subsumes the new one, else the stored
-- tokens that the new one does not subsume.
keep_loop : Token → List Token → List Token → Bool × List Token
keep_loop t [] result = (false, result)
keep_loop t (ot ∷ ots) result =
    let rest = keep_loop t ots (if subsumes t ot then result else result ++ ot ∷ []) in
    if subsumes ot t then (true, result) else rest

-- `consumeAnchorToken`, on the list of the token's issuer.
unfoldable pub consume_anchor : List Token → Token → List Token
unfolding keep_loop
consume_anchor list t = let kept = keep_loop t list [] in if kept.0 then list else kept.1 ++ t ∷ []

-- `consumeRequireToken`. (Where nothing is stored a nil list is, which reads the same.)
unfoldable pub consume_require_token : Context → Token → Context
consume_require_token ctx t = record ctx {
  require =
      insert (issuer t).uri (consume_anchor (or_nil (lookup (issuer t).uri ctx.require)) t)
        ctx.require;
}

-- `consumeProvideToken`
unfoldable pub consume_provide_token : Context → Token → Context
consume_provide_token ctx t = record ctx {
  provide =
      insert (issuer t).uri (consume_anchor (or_nil (lookup (issuer t).uri ctx.provide)) t)
        ctx.provide;
}

-- `consumeRevokeToken`, `RevocationSet.Revoke`
unfoldable pub consume_revoke_token : Context → Token → Context
consume_revoke_token ctx t = record ctx { revoke = insert (revocation_key t) t ctx.revoke }

-- `addRoots`
unfoldable pub add_root_dids : Context → List Did → Context
add_root_dids ctx [] = ctx
add_root_dids ctx (d ∷ ds) = add_root_dids (record ctx { roots = insert d.uri tt ctx.roots }) ds

-- `if err != nil { return err }`: what follows a step that changes the context.
unfoldable pub and_then :
    Result (Unit {0}) × Context
    → (Context → Result (Unit {0}) × Context)
    → Result (Unit {0}) × Context
and_then (ok _, ctx) k = k ctx
and_then (err e, ctx) k = (err e, ctx)

module _ (marshal : Token → Result String) (trust : TrustContext) (now : ℕ) where
  -- The three loops of `AddRoots`; on an error the context is as far as the loop has come.
  unfoldable pub add_revocations : Context → List Token → Result (Unit {0}) × Context
  add_revocations ctx [] = (ok tt, ctx)
  add_revocations ctx (t ∷ ts) =
      let rest = add_revocations (consume_revoke_token ctx t) ts in
      if not (is_revoke (action t))
      then (err bad_token, ctx)
      else elim (verify marshal trust t now ctx.revoke) [ ok u ↦ rest | err e ↦ (err e, ctx) ]

  unfoldable pub add_requires : Context → List Token → Result (Unit {0}) × Context
  add_requires ctx [] = (ok tt, ctx)
  add_requires ctx (t ∷ ts) =
      let rest = add_requires (consume_require_token ctx t) ts in
      elim (verify marshal trust t now ctx.revoke) [ ok u ↦ rest | err e ↦ (err e, ctx) ]

  unfoldable pub add_provides : Context → List Token → Result (Unit {0}) × Context
  add_provides ctx [] = (ok tt, ctx)
  add_provides ctx (t ∷ ts) =
      let rest = add_provides (consume_provide_token ctx t) ts in
      elim (verify marshal trust t now ctx.revoke) [ ok u ↦ rest | err e ↦ (err e, ctx) ]

  -- `slices.DeleteFunc(list, func(t) { return t.Verify(…) != nil })`
  unfoldable pub verified : RevocationSet → List Token → List Token
  verified revoke list = delete_func list (λ t. not (is_ok (verify marshal trust t now revoke)))

  -- The loops of `cleanUpTokens` over the anchors.
  unfoldable pub clean_requires : Context → List Did → Context
  clean_requires ctx [] = ctx
  clean_requires ctx (a ∷ anchors) =
      let read = get_require_tokens ctx a now in
      let c = read.1 in
      clean_requires (record c { require = insert a.uri (verified c.revoke read.0) c.require })
        anchors

  unfoldable pub clean_provides : Context → List Did → Context
  clean_provides ctx [] = ctx
  clean_provides ctx (a ∷ anchors) =
      let read = get_provide_tokens ctx a now in
      let c = read.1 in
      clean_provides (record c { provide = insert a.uri (verified c.revoke read.0) c.provide })
        anchors

  -- `cleanUpTokens`
  unfoldable pub clean_up_tokens : Context → Context
  clean_up_tokens ctx =
      let c = clean_requires ctx (get_require_anchors ctx) in
      let d = clean_provides c (get_provide_anchors c) in
      record d { tokens = update_all (verified d.revoke) d.tokens }

  -- `AddRoots`
  unfoldable pub add_roots :
      Context → List Did → List Token → List Token → List Token → Result (Unit {0}) × Context
  add_roots ctx roots require provide revoke =
      and_then (add_revocations (add_root_dids ctx roots) revoke) (λ a.
        and_then (add_requires a require)
          (λ b. and_then (add_provides b provide) (λ c. (ok tt, clean_up_tokens c))))

-- `RemoveRoots`: the stored tokens with the nonce of a given one, under its issuer.
unfoldable pub remove_token : Map (List Token) → Token → Map (List Token)
remove_token m t = elim (lookup (issuer t).uri m) [
  | none ↦ m
  | some list ↦
      let left = delete_func list (λ ot. str_eq (nonce t) (nonce ot)) in
      if is_nil left then erase (issuer t).uri m else insert (issuer t).uri left m
]

unfoldable pub remove_tokens : Map (List Token) → List Token → Map (List Token)
remove_tokens m [] = m
remove_tokens m (t ∷ ts) = remove_tokens (remove_token m t) ts

unfoldable pub remove_root_dids : Map (Unit {0}) → List Did → Map (Unit {0})
remove_root_dids m [] = m
remove_root_dids m (d ∷ ds) = remove_root_dids (erase d.uri m) ds

unfoldable pub remove_revocations : RevocationSet → List Token → RevocationSet
remove_revocations r [] = r
remove_revocations r (t ∷ ts) = remove_revocations (erase (revocation_key t) r) ts

unfoldable pub remove_roots : Context → List Did → List Token → List Token → List Token → Context
remove_roots ctx roots require provide revoke = record ctx {
  roots = remove_root_dids ctx.roots roots;
  require = remove_tokens ctx.require require;
  provide = remove_tokens ctx.provide provide;
  revoke = remove_revocations ctx.revoke revoke;
}

-- `newCapabilityContext`, before it calls `AddRoots`.
abbrev pub new_context : Provider → Context
new_context p = record {
  provider = p;
  roots = [];
  require = [];
  provide = [];
  tokens = [];
  revoke = [];
}

module _ (marshal : Token → Result String) (trust : TrustContext) (now : ℕ) where
  -- `newCapabilityContext`
  unfoldable pub new_capability_context :
      Did → List Did → List Token → List Token → List Token → Result Context
  new_capability_context did roots require provide revoke = do
    p ← trust.get_provider did
    let made = add_roots marshal trust now (new_context p) roots require provide revoke
    made.0
    ok made.1
