-- ===== src/Ucan/Verify.antt =====
-- lib/ucan/token.go: `Verify`, the check of a token and its chain.
-- `marshal` stands for `json.Marshal` of a `DMSToken`; `now` is `time.Now().UnixNano()`.
pub mod Need
pub mod Chain
pub mod Attenuation
pub mod Later
use device_management_servic.Common.{
  ℕ, String, Bool, true, false, not, List, Result, ok, err, guard, ◌>>=◌, ◌>>◌, bad_token,
  capability_expired, not_authorized, if◌then◌else◌, is_nil,
}
use device_management_servic.Ucan.Did.{Did, TrustContext, equal}
use device_management_servic.Ucan.Token.{
  Token, byo, root, chained, Claims, Action, is_delegate, is_revoke, issuer, subject, action,
  expire, expire_before, exceeds, next, RevocationSet, revoked, revocation_key, signature_data,
}
use device_management_servic.Ucan.Allow.{chain_allows}
use Need.{need_capability}

module _ (marshal : Token → Result String) (trust : TrustContext) where
  unfoldable pub verify_signature : Token → Claims → Result (Unit {0})
  verify_signature t c = do
    a ← trust.get_anchor c.issuer
    bytes ← signature_data marshal t
    a.verify bytes c.signature

  -- The part of `verify` for a non-nil chain; `above` is what verifying the chain gives.
  check_chain : Claims → Token → Result (Unit {0}) → Result (Unit {0})
  check_chain c p above = do
    guard (is_delegate (action p)) not_authorized
    guard (not (expire_before p c.expire)) capability_expired
    above
    guard (equal c.issuer (subject p)) not_authorized
    guard
        (is_nil
          (need_capability (chain_allows p c.issuer c.audience c.topic c.expire) c.capability))
        not_authorized

  -- The body of `verify` round the part for the chain.
  check : ℕ → RevocationSet → Token → Claims → ℕ → Result (Unit {0}) → Result (Unit {0})
  check now revoke t c depth chain =
      if expire_before t now
      then err capability_expired
      else if is_revoke c.action
      then verify_signature t c
      else do
        guard (not (exceeds c.depth depth)) not_authorized
        guard (not (revoked revoke (revocation_key t))) not_authorized
        chain
        verify_signature t c

  unfoldable pub verify_at : ℕ → RevocationSet → Token → ℕ → Result (Unit {0})
  unfolding check check_chain
  verify_at now revoke byo depth = err bad_token
  verify_at now revoke (root c) depth = check now revoke (root c) c depth (ok tt)
  verify_at now revoke (chained c p) depth =
      check now revoke (chained c p) c depth (check_chain c p (verify_at now revoke p (next depth)))

  -- `Verify`
  unfoldable pub verify : Token → ℕ → RevocationSet → Result (Unit {0})
  verify t now revoke = verify_at now revoke t 0
