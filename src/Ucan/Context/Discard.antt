-- ===== src/Ucan/Context/Discard.antt =====
-- lib/ucan/context.go: dropping tokens, by `Discard` and by the garbage collector.
use device_management_servic.Common.{
  ℕ, String, ◌&&◌, List, [], ◌∷◌, Result, ok, err, delete_func, is_nil, if◌then◌else◌, str_eq,
}
use device_management_servic.Common.Map.{Map, lookup, insert, erase, prune}
use device_management_servic.Ucan.Did.{equal}
use device_management_servic.Ucan.Token.{
  Token, issuer, subject, nonce, expire_before, RevocationSet,
}
use device_management_servic.Ucan.Context.State.{Context, or_nil, live}

-- One round of `discardTokens`.
unfoldable pub discard_token : Map (List Token) → Token → Map (List Token)
discard_token m t =
    let left =
      delete_func (or_nil (lookup (subject t).uri m))
        (λ ot. equal (issuer t) (issuer ot) && str_eq (nonce t) (nonce ot)) in
    if is_nil left then erase (subject t).uri m else insert (subject t).uri left m

unfoldable pub discard_tokens : Map (List Token) → List Token → Map (List Token)
discard_tokens m [] = m
discard_tokens m (t ∷ ts) = discard_tokens (discard_token m t) ts

-- `Discard`
unfoldable pub discard : (String → Result (List Token)) → Context → String → Context
discard unmarshal ctx blob = elim (unmarshal blob) [
  | err e ↦ ctx
  | ok tokens ↦ record ctx { tokens = discard_tokens ctx.tokens tokens }
]

-- `RevocationSet.gc`
unfoldable pub gc_revocations : RevocationSet → ℕ → RevocationSet
gc_revocations r now = prune (λ t. t) (λ t. expire_before t now) r

-- `gcTokens`
unfoldable pub gc_tokens : Context → ℕ → Context
gc_tokens ctx now = record ctx {
  require = prune (live now) is_nil ctx.require;
  provide = prune (live now) is_nil ctx.provide;
  revoke = gc_revocations ctx.revoke now;
  tokens = prune (live now) is_nil ctx.tokens;
}
