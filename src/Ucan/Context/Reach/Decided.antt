-- ===== src/Ucan/Context/Reach/Decided.antt =====
-- lib/ucan/context.go: what `Require` guarantees in a context that a program can reach.
use device_management_servic.Common.{
  ℕ, String, true, List, Result, ok, ◌≡◌, ◌≢◌, ap, Memᴰ, inl, inr,
}
use device_management_servic.Ucan.Capability.{Capability}
use device_management_servic.Ucan.Did.{Did, TrustContext}
use device_management_servic.Ucan.Token.{Token, capability, subject, revoked, revocation_key}
use device_management_servic.Ucan.Token.Links.{chain_of, first}
use device_management_servic.Ucan.Allow.{allow_invocation}
use device_management_servic.Ucan.Allow.Laws.{Grants}
use device_management_servic.Ucan.Verify.{verify}
use device_management_servic.Ucan.Verify.Chain.{Valid, verify_at_iff}
use device_management_servic.Ucan.Verify.Attenuation.{
  NoEmpty, verify-attenuates, allow_invocation-granted,
}
use device_management_servic.Ucan.Verify.Later.{revoked-verify}
use device_management_servic.Ucan.Context.State.{Context, get_roots}
use device_management_servic.Ucan.Context.Require.{require_invocation}
use device_management_servic.Ucan.Context.Require.Search.{Anchored}
use device_management_servic.Ucan.Context.Require.Decision.{require_invocation_iff}
use device_management_servic.Ucan.Context.Reach.{Reachable, Reachable-IsSound}

-- The authority behind an accepted invocation.
pub record Derived (marshal : Token → Result String) (trust : TrustContext) (now : ℕ)
    (ctx : Context) (anc sub aud : Did) (caps : List Capability) : Type 0 where
  pub token : Token
  pub issued_to : subject token ≡ sub
  pub checked : verify marshal trust token now ctx.revoke ≡ ok tt
  pub valid : Valid marshal trust now ctx.revoke token 0
  pub unrevoked :
      (l : Token) → Memᴰ l (chain_of token) → revoked ctx.revoke (revocation_key l) ≢ true
  pub wanted : Capability
  pub listed : Memᴰ wanted caps
  pub allowed : allow_invocation token sub aud wanted ≡ true
  pub from_first : NoEmpty token → Grants (capability (first token)) wanted
  pub anchored : Anchored ctx now anc (get_roots ctx) token

module _ (marshal : Token → Result String) (unmarshal : String → Result (List Token))
    (from_id : String → Result Did) (trust : TrustContext) (now : ℕ) (ctx : Context) where
  -- If `Require` accepts an invocation in a context that any calls have led to, a failed `AddRoots`
  -- excepted, the subject holds a token that verifies at that time against the context's
  -- revocations, with every link of its chain valid and none of them revoked, which allows one of
  -- the required capabilities at the audience and is anchored; and, where no link carries the empty
  -- capability, the first token of the chain grants that capability.
  pub Reachable-require_invocation :
      (anc : Did) (subj audi : String) (caps : List Capability)
      → Reachable marshal unmarshal from_id trust now ctx
      → (require_invocation from_id ctx now anc subj audi caps).0 ≡ ok tt
      → (sub : Did) × (aud : Did) × (from_id subj ≡ ok sub)
        × (from_id audi ≡ ok aud)
        × Derived marshal trust now ctx anc sub aud caps
  unfolding verify
  Reachable-require_invocation anc subj audi caps reach h =
      let (sub, aud, p, q, a) = (require_invocation_iff from_id ctx now anc subj audi caps).0 h in
      let s = Reachable-IsSound marshal unmarshal from_id trust now ctx reach in
      let (k, f) = s.tokens_sound sub.uri a.token a.held in
      elim f [
        | inl gone ↦ cc (gone, a.live)
        | inr v ↦
            let (r, g) =
              allow_invocation-granted marshal trust now ctx.revoke a.token sub aud a.wanted
                a.allowed in
            (
              sub,
              aud,
              p,
              q,
              record {
                token = a.token;
                issued_to = ap (λ u. record { uri = u }) k;
                checked = v;
                valid = (verify_at_iff marshal trust now ctx.revoke a.token 0 r).0 v;
                unrevoked = λ l m x. revoked-verify marshal trust now ctx.revoke a.token l r m x v;
                wanted = a.wanted;
                listed = a.listed;
                allowed = a.allowed;
                from_first = λ n.
                    verify-attenuates marshal trust now ctx.revoke a.token sub aud a.wanted v n
                      a.allowed;
                anchored = a.anchored;
              },
            )
      ]
