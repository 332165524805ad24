-- ===== src/Ucan/Delegate.antt =====
-- lib/ucan/token.go: issuing a token below another one.
-- `nonce` is what `rand.Read` gives: 12 random bytes, or an error.
pub mod Roundtrip
use device_management_servic.Common.{
  ℕ, String, Bool, true, false, not, List, [], ◌∷◌, Result, ok, err, guard, ◌>>=◌, ◌>>◌, bad_token,
  not_authorized,
}
use device_management_servic.Ucan.Capability.{Capability}
use device_management_servic.Ucan.Did.{Did, empty_did, Provider}
use device_management_servic.Ucan.Token.{
  Token, byo, root, chained, Claims, Action, invoke, delegate, broadcast, is_delegate, action,
  verify_depth, signature_data,
}
use device_management_servic.Ucan.Allow.{needed_depth}

unfoldable pub with_signature : String → Token → Token
with_signature sig byo = byo
with_signature sig (root c) = root (record c { signature = sig })
with_signature sig (chained c p) = chained (record c { signature = sig }) p

module _ (marshal : Token → Result String) where
  -- `data, err := result.SignatureData(); sig, err := provider.Sign(data); result.Signature = sig`
  unfoldable pub sign_token : Provider → Token → Result Token
  unfolding with_signature
  sign_token provider t = do
    bytes ← signature_data marshal t
    sig ← provider.sign bytes
    ok (with_signature sig t)

  -- `delegate` of `DMSToken`, with the answer of `Token` where there is none.
  unfoldable pub delegate_as :
      Token
      → Action
      → Provider
      → Result String
      → Did
      → Did
      → List Capability
      → ℕ
      → ℕ
      → List Capability
      → Result Token
  delegate_as byo act provider nonce sub aud topics exp dep caps = err bad_token
  delegate_as t act provider nonce sub aud topics exp dep caps = do
    guard (is_delegate (action t)) not_authorized
    guard (verify_depth t (needed_depth act)) not_authorized
    bytes ← nonce
    sign_token provider (
        chained
          (record {
            action = act;
            issuer = provider.did;
            subject = sub;
            audience = aud;
            topic = topics;
            capability = caps;
            nonce = bytes;
            expire = exp;
            depth = dep;
            signature = "";
          })
          t)

  -- `Delegate`
  unfoldable pub delegate_token :
      Token
      → Provider
      → Result String
      → Did
      → Did
      → List Capability
      → ℕ
      → ℕ
      → List Capability
      → Result Token
  delegate_token t provider nonce sub aud topics exp dep caps =
      delegate_as t delegate provider nonce sub aud topics exp dep caps

  -- `DelegateInvocation`
  unfoldable pub delegate_invocation :
      Token → Provider → Result String → Did → Did → ℕ → List Capability → Result Token
  delegate_invocation t provider nonce sub aud exp caps =
      delegate_as t invoke provider nonce sub aud [] exp 0 caps

  -- `DelegateBroadcast`
  unfoldable pub delegate_broadcast :
      Token → Provider → Result String → Did → Capability → ℕ → List Capability → Result Token
  delegate_broadcast t provider nonce sub top exp caps =
      delegate_as t broadcast provider nonce sub empty_did (top ∷ []) exp 0 caps
