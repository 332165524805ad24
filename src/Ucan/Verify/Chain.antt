-- ===== src/Ucan/Verify/Chain.antt =====
-- lib/ucan/token.go: what `verify` checks, as rules for the derivation of authority along a chain.
use device_management_servic.Common.{
  ℕ, ◌≤◌, String, true, false, Result, ok, ◌≡◌, ◌↔◌, refl, sym, arith, Memᴰ, is_nil,
}
use device_management_servic.Ucan.Capability.{Capability}
use device_management_servic.Ucan.Did.{TrustContext, equal, equal_iff}
use device_management_servic.Ucan.Allow.{chain_allows}
use device_management_servic.Ucan.Allow.Laws.{Grants, AudienceOk, chain_allows_iff}
use device_management_servic.Ucan.Token.{
  Token, byo, root, chained, Claims, is_delegate, is_revoke, subject, audience, capability, topic,
  action, expire, expire_before, exceeds, next, RevocationSet, revoked, revocation_key,
}
use device_management_servic.Ucan.Verify.{verify_signature, verify_at, check, check_chain}
use device_management_servic.Ucan.Verify.Need.{need_capability, need_capability_iff}

-- One token of a chain, by itself.
pub record LinkOk (marshal : Token → Result String) (trust : TrustContext) (now : ℕ)
    (revoke : RevocationSet) (t : Token) (c : Claims) (depth : ℕ) : Type 0 where
  pub live : now ≤ c.expire
  pub within : exceeds c.depth depth ≡ false
  pub unrevoked : revoked revoke (revocation_key t) ≡ false
  pub signed : verify_signature marshal trust t c ≡ ok tt

-- What a token passes on of one capability.
pub record Passes (c : Claims) (p : Token) (x : Capability) : Type 0 where
  pub grants : Grants (capability p) x
  pub audience_fits : AudienceOk (audience p) c.audience
  pub topics_fit : (t : Capability) → Memᴰ t c.topic → Grants (topic p) t

-- A token and the one above it: a delegation to the issuer that lasts as long and grants as much.
pub record Delegated (c : Claims) (p : Token) : Type 0 where
  pub delegates : is_delegate (action p) ≡ true
  pub outlives : c.expire ≤ expire p
  pub from_subject : c.issuer ≡ subject p
  pub passes : (x : Capability) → Memᴰ x c.capability → Passes c p x

pub expire_before-le :
    (p : Token) (deadline : ℕ) → expire_before p deadline ≡ false → deadline ≤ expire p
unfolding expire_before
expire_before-le byo deadline h = absurd (ground arith)
expire_before-le (root c) deadline h = ground arith
expire_before-le (chained c p) deadline h = ground arith

-- A delegation is no revocation.
pub delegate_not_revoke : (p : Token) → is_delegate (action p) ≡ true → is_revoke (action p) ≡ false
delegate_not_revoke p h = ground arith

module _ (marshal : Token → Result String) (trust : TrustContext) (now : ℕ)
    (revoke : RevocationSet) where
  -- Every link holds by itself, and is delegated by the one above it.
  abbrev pub Valid : Token → ℕ → Type 0
  Valid byo depth = ⊥
  Valid (root c) depth = LinkOk marshal trust now revoke (root c) c depth
  Valid (chained c p) depth =
      LinkOk marshal trust now revoke (chained c p) c depth × Delegated c p × Valid p (next depth)

  -- The tests of `check`, for a token that is no revocation.
  abbrev Checked : Token → Claims → ℕ → Result (Unit {0}) → Type 0
  Checked t c depth chain =
      (expire_before t now ≡ false)
      × (exceeds c.depth depth ≡ false)
      × (revoked revoke (revocation_key t) ≡ false)
      × (chain ≡ ok tt)
      × (verify_signature marshal trust t c ≡ ok tt)

  check_iff :
      (t : Token) (c : Claims) (depth : ℕ) (chain : Result (Unit {0}))
      → is_revoke c.action ≡ false
      → (check marshal trust now revoke t c depth chain ≡ ok tt) ↔ Checked t c depth chain
  unfolding check
  check_iff t c depth chain h = ground arith

  abbrev Linked : Claims → Token → Result (Unit {0}) → Type 0
  Linked c p above =
      (is_delegate (action p) ≡ true)
      × (expire_before p c.expire ≡ false)
      × (above ≡ ok tt)
      × (equal c.issuer (subject p) ≡ true)
      × (is_nil (need_capability (chain_allows p c.issuer c.audience c.topic c.expire) c.capability)
          ≡ true)

  check_chain_iff :
      (c : Claims) (p : Token) (above : Result (Unit {0}))
      → (check_chain marshal trust c p above ≡ ok tt) ↔ Linked c p above
  unfolding check_chain
  check_chain_iff c p above = ground arith

  -- No link of a valid chain has expired, and the first link of it expires first.
  Valid-expire_before :
      (t : Token) (depth deadline : ℕ)
      → Valid t depth
      → deadline ≤ expire t
      → expire_before t deadline ≡ false
  unfolding expire_before
  Valid-expire_before byo depth deadline v h = absurd v
  Valid-expire_before (root c) depth deadline v h = ground arith
  Valid-expire_before (chained c p) depth deadline (l, d, v) h =
      let above : deadline ≤ expire p = omega arith in
      ground (arith, Valid-expire_before p (next depth) deadline v above)

  pub Valid-live : (t : Token) (depth : ℕ) → Valid t depth → now ≤ expire t
  Valid-live byo depth v = absurd v
  Valid-live (root c) depth v = v.live
  Valid-live (chained c p) depth v = v.0.live

  expire_before-parent :
      (c : Claims) (p : Token) (deadline : ℕ)
      → expire_before (chained c p) deadline ≡ false
      → (deadline ≤ c.expire) × (expire_before p deadline ≡ false)
  unfolding expire_before
  expire_before-parent c p deadline h = ground arith

  Linked-Delegated :
      (c : Claims) (p : Token) (above : Result (Unit {0})) → Linked c p above → Delegated c p
  Linked-Delegated c p above l = record {
    delegates = l.0;
    outlives = expire_before-le p c.expire l.1;
    from_subject = (equal_iff c.issuer (subject p)).0 l.3;
    passes = λ x m.
        let a =
          (chain_allows_iff p c.issuer c.audience c.topic c.expire x).0
            ((need_capability_iff _ c.capability).0 l.4 x m) in
        record { grants = a.grants; audience_fits = a.audience_fits; topics_fit = a.topics_fit };
  }

  Delegated-Linked :
      (c : Claims) (p : Token) (above : Result (Unit {0}))
      → Delegated c p
      → expire_before p c.expire ≡ false
      → above ≡ ok tt
      → Linked c p above
  Delegated-Linked c p above d e a = (
    d.delegates,
    e,
    a,
    (equal_iff c.issuer (subject p)).1 d.from_subject,
    (need_capability_iff _ c.capability).1 (λ x m.
        let q = d.passes x m in
        (chain_allows_iff p c.issuer c.audience c.topic c.expire x).1 (record {
          delegates = d.delegates;
          outlives = e;
          to_issuer = (equal_iff (subject p) c.issuer).1 (sym d.from_subject);
          audience_fits = q.audience_fits;
          topics_fit = q.topics_fit;
          grants = q.grants;
        })),
  )

  verify_sound :
      (t : Token) (depth : ℕ)
      → is_revoke (action t) ≡ false
      → verify_at marshal trust now revoke t depth ≡ ok tt
      → Valid t depth
  unfolding verify_at
  verify_sound byo depth r h = cc
  verify_sound (root c) depth r h =
      let k = (check_iff (root c) c depth (ok tt) r).0 h in
      record {
        live = expire_before-le (root c) now k.0;
        within = k.1;
        unrevoked = k.2;
        signed = k.4;
      }
  verify_sound (chained c p) depth r h =
      let k = (check_iff (chained c p) c depth _ r).0 h in
      let l = (check_chain_iff c p _).0 k.3 in
      (
        record {
          live = (expire_before-parent c p now k.0).0;
          within = k.1;
          unrevoked = k.2;
          signed = k.4;
        },
        Linked-Delegated c p _ l,
        verify_sound p (next depth) (delegate_not_revoke p l.0) l.2,
      )

  verify_complete :
      (t : Token) (depth : ℕ)
      → is_revoke (action t) ≡ false
      → Valid t depth
      → verify_at marshal trust now revoke t depth ≡ ok tt
  unfolding verify_at
  verify_complete byo depth r v = absurd v
  verify_complete (root c) depth r v =
      (check_iff (root c) c depth (ok tt) r).1
        (Valid-expire_before (root c) depth now v v.live, v.within, v.unrevoked, refl, v.signed)
  verify_complete (chained c p) depth r (l, d, v) = (check_iff (chained c p) c depth _ r).1 (
    Valid-expire_before (chained c p) depth now (l, d, v) l.live,
    l.within,
    l.unrevoked,
    (check_chain_iff c p _).1 (
        Delegated-Linked c p _ d (Valid-expire_before p (next depth) c.expire v d.outlives)
          (verify_complete p (next depth) (delegate_not_revoke p d.delegates) v)),
    l.signed,
  )

  -- A token that is no revocation verifies exactly when every link of its chain holds by itself
  -- and is delegated by the link above it.
  pub verify_at_iff :
      (t : Token) (depth : ℕ)
      → is_revoke (action t) ≡ false
      → (verify_at marshal trust now revoke t depth ≡ ok tt) ↔ Valid t depth
  verify_at_iff t depth r = (verify_sound t depth r, verify_complete t depth r)
