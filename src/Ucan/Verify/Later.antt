-- ===== src/Ucan/Verify/Later.antt =====
-- lib/ucan/token.go: `verify` at another time and for another revocation set.
use mathlib.Core.List.Memᴰ
use device_management_servic.Common.{
  ℕ, ◌≤◌, String, true, false, Result, ok, ◌≡◌, ◌≢◌, ◌↔◌, arith, Memᴰ, Bool-cases, inl, inr,
}
use device_management_servic.Ucan.Did.{TrustContext}
use device_management_servic.Ucan.Token.{
  Token, byo, root, chained, Claims, is_revoke, action, next, RevocationSet, revoked, expire_before,
  revocation_key,
}
use device_management_servic.Ucan.Token.Links.{chain_of}
use device_management_servic.Ucan.Verify.{verify, verify_at, check, verify_signature}
use device_management_servic.Ucan.Verify.Chain.{Valid, verify_at_iff}

-- Every key that is revoked in the first set is revoked in the second.
abbrev pub RevokesLess : RevocationSet → RevocationSet → Type 0
RevokesLess r s = (key : String) → revoked s key ≡ false → revoked r key ≡ false

module _ (marshal : Token → Result String) (trust : TrustContext) where
  Valid-later :
      (now later : ℕ) (r s : RevocationSet) (t : Token) (depth : ℕ)
      → Valid marshal trust now s t depth
      → RevokesLess r s
      → expire_before t later ≡ false
      → Valid marshal trust later r t depth
  unfolding expire_before
  Valid-later now later r s byo depth v l e = v
  Valid-later now later r s (root c) depth v l e = record {
    live = ground arith;
    within = v.within;
    unrevoked = l _ v.unrevoked;
    signed = v.signed;
  }
  Valid-later now later r s (chained c p) depth (k, d, v) l e = (
    record {
      live = ground arith;
      within = k.within;
      unrevoked = l _ k.unrevoked;
      signed = k.signed;
    },
    d,
    Valid-later now later r s p (next depth) v l (ground arith),
  )

  revoke-later :
      (now later : ℕ) (r s : RevocationSet) (t : Token)
      → is_revoke (action t) ≡ true
      → verify marshal trust t now s ≡ ok tt
      → expire_before t later ≡ false
      → verify marshal trust t later r ≡ ok tt
  unfolding verify verify_at
  revoke-later now later r s byo k h e = cc
  revoke-later now later r s (root c) k h e = ground arith
  revoke-later now later r s (chained c p) k h e = ground arith

  -- A token that verified verifies at any other time at which its chain has not expired, and for
  -- any revocation set that revokes no further key.
  pub verify-later :
      (now later : ℕ) (r s : RevocationSet) (t : Token)
      → verify marshal trust t now s ≡ ok tt
      → RevokesLess r s
      → expire_before t later ≡ false
      → verify marshal trust t later r ≡ ok tt
  unfolding verify
  verify-later now later r s t h l e = elim (Bool-cases (is_revoke (action t))) [
    | inl k ↦ revoke-later now later r s t k h e
    | inr k ↦
        (verify_at_iff marshal trust later r t 0 k).1
          (Valid-later now later r s t 0 ((verify_at_iff marshal trust now s t 0 k).0 h) l e)
  ]

  Valid-unrevoked :
      (now : ℕ) (r : RevocationSet) (t : Token) (depth : ℕ) {l : Token}
      → Valid marshal trust now r t depth
      → Memᴰ l (chain_of t)
      → revoked r (revocation_key l) ≡ false
  Valid-unrevoked now r byo depth v m = absurd v
  Valid-unrevoked now r (root c) depth v m = rw (Memᴰ.eq_of_singleton m) v.unrevoked
  Valid-unrevoked now r (chained c p) depth (k, d, v) m = elim (Memᴰ.cases_cons m) [
    | inl e ↦ rw e k.unrevoked
    | inr i ↦ Valid-unrevoked now r p (next depth) v i
  ]

  checked-live :
      (now : ℕ) (r : RevocationSet) (t : Token) (c : Claims) (depth : ℕ) (chain : Result (Unit {0}))
      → check marshal trust now r t c depth chain ≡ ok tt
      → expire_before t now ≡ false
  unfolding check
  checked-live now r t c depth chain h = elim (Bool-cases (expire_before t now)) [
    | inr live ↦ live
    | inl late ↦ cc (rw (late, check) at h)
  ]

  -- A token that verifies has not expired, nor has a link of its chain.
  pub verify-live :
      (now : ℕ) (r : RevocationSet) (t : Token)
      → verify marshal trust t now r ≡ ok tt
      → expire_before t now ≡ false
  unfolding verify verify_at
  verify-live now r byo h = cc
  verify-live now r (root c) h = checked-live now r (root c) c 0 (ok tt) h
  verify-live now r (chained c p) h = checked-live now r (chained c p) c 0 _ h

  -- Once a link of its chain is revoked, a token that is no revocation does not verify, at any
  -- time.
  pub revoked-verify :
      (now : ℕ) (r : RevocationSet) (t l : Token)
      → is_revoke (action t) ≡ false
      → Memᴰ l (chain_of t)
      → revoked r (revocation_key l) ≡ true
      → verify marshal trust t now r ≢ ok tt
  unfolding verify
  revoked-verify now r t l k m h e =
      cc (h, Valid-unrevoked now r t 0 ((verify_at_iff marshal trust now r t 0 k).0 e) m)

  -- A first token that is a revocation verifies exactly when it has not expired and its signature
  -- verifies, whatever has been revoked.
  pub revocation_iff :
      (now : ℕ) (r : RevocationSet) (c : Claims)
      → is_revoke c.action ≡ true
      → (verify marshal trust (root c) now r ≡ ok tt)
        ↔ ((now ≤ c.expire) × (verify_signature marshal trust (root c) c ≡ ok tt))
  unfolding verify verify_at check expire_before
  revocation_iff now r c h = ground arith
