-- ===== src/Ucan/Context/Provide.antt =====
-- lib/ucan/context.go: the tokens that a context issues, by `Grant`, `Revoke`, `Delegate`,
-- `DelegateInvocation` and `DelegateBroadcast`.
-- `rand n` is what the call of `rand.Read` numbered `n` gives; a call is numbered when a token is
-- about to be made.
pub mod Request
pub mod Issued
pub mod Grants
pub mod Revokes
pub mod Verified
pub mod Outcome
pub mod Broadcasts
use Prim.Native.String.{len}
use device_management_servic.Common.{
  ℕ, ◌+◌, String, Bool, true, false, ◌&&◌, not, List, [], ◌∷◌, ◌++◌, length, Result, ok, err, guard,
  ◌>>=◌, ◌>>◌, not_authorized, too_big, if◌then◌else◌, is_nil, ltb, nat_eq, delete_func,
}
use device_management_servic.Ucan.Capability.{Capability}
use device_management_servic.Ucan.Did.{Did, empty_did, equal, Provider}
use device_management_servic.Ucan.Token.{
  Token, root, Action, invoke, delegate, broadcast, revoke, anchor, issuer, subject, nonce, expire,
  capability,
}
use device_management_servic.Ucan.Allow.{allow_delegation}
use device_management_servic.Ucan.Delegate.{
  sign_token, delegate_token, delegate_invocation, delegate_broadcast,
}
use device_management_servic.Ucan.Context.State.{
  Context, context_did, get_provide_anchors, get_provide_tokens, get_subject_tokens,
}
use device_management_servic.Ucan.Context.Consume.{max_capability_size}

-- `SelfSignMode`
pub data SelfSignMode : Type 0 where
  self_sign_no : SelfSignMode
  self_sign_also : SelfSignMode
  self_sign_only : SelfSignMode

-- The capabilities of `provide` that a token may pass on.
unfoldable pub providing :
    (Token → Capability → Bool) → Did → Token → List Capability → List Capability
providing allows anc t provide = delete_func provide (λ c. not (anchor t anc && allows t c))

-- Tokens, the context after the reads, and the number of the next random draw.
abbrev pub Issued : Type 0
Issued = List Token × Context × ℕ

module _ (rand : ℕ → Result String) where
  module _ (allows : Token → Capability → Bool)
      (make : Token → Result String → List Capability → Result Token)
      (provide : List Capability) where
    -- The loop over a token list in `Delegate`, `delegateInvocation` and `delegateBroadcast`. A
    -- token that may pass on only some of the capabilities is not used.
    unfoldable pub issue_from : Did → ℕ → List Token → List Token × ℕ
    issue_from anc n [] = ([], n)
    issue_from anc n (t ∷ ts) =
        let skip = issue_from anc n ts in
        let rest = issue_from anc (n + 1) ts in
        let caps = providing allows anc t provide in
        if is_nil caps
        then skip
        else if ltb (length caps) (length provide)
        then skip
        else elim (make t (rand n) caps) [ err e ↦ rest | ok token ↦ (token ∷ rest.0, rest.1) ]

    -- The loop over the anchors.
    unfoldable pub issue_anchors : ℕ → Context → ℕ → List Did → Issued
    issue_anchors now ctx n [] = ([], ctx, n)
    issue_anchors now ctx n (a ∷ anchors) =
        let read = get_provide_tokens ctx a now in
        let first = issue_from a n read.0 in
        let rest = issue_anchors now read.1 first.1 anchors in (first.0 ++ rest.0, rest.1, rest.2)

  module _ (marshal : Token → Result String) where
    -- `Grant`
    unfoldable pub grant :
        Context
        → Result String
        → Action
        → Did
        → Did
        → List Capability
        → ℕ
        → ℕ
        → List Capability
        → Result (List Token)
    grant ctx drawn act sub aud topics exp dep caps = do
      bytes ← drawn
      token ← sign_token marshal ctx.provider (
          root (record {
            action = act;
            issuer = context_did ctx;
            subject = sub;
            audience = aud;
            topic = topics;
            capability = caps;
            nonce = bytes;
            expire = exp;
            depth = dep;
            signature = "";
          }))
      ok (token ∷ [])

    -- `Revoke`
    unfoldable pub revoke_token : Context → Token → Result Token
    revoke_token ctx t = do
      guard (equal (context_did ctx) (issuer t)) not_authorized
      sign_token marshal ctx.provider (
          root (record {
            action = revoke;
            issuer = issuer t;
            subject = subject t;
            audience = empty_did;
            topic = [];
            capability = capability t;
            nonce = nonce t;
            expire = expire t;
            depth = 0;
            signature = "";
          }))

    -- The end of the three operations: what was issued, or with a token that the context grants.
    unfoldable pub close : SelfSignMode → List Token → Result (List Token) → Result (List Token)
    close self_sign_no [] granted = err not_authorized
    close self_sign_no (t ∷ ts) granted = ok (t ∷ ts)
    close self_sign_also issued granted = do tokens ← granted; ok (issued ++ tokens)
    close self_sign_only issued granted = do tokens ← granted; ok (issued ++ tokens)

    -- `Delegate`; an expiry of 0 stands for that of the token above.
    abbrev pub definitive : ℕ → Token → ℕ
    definitive exp t = if nat_eq exp 0 then expire t else exp

    unfoldable pub delegates :
        SelfSignMode
        → ℕ
        → Context
        → ℕ
        → Did
        → Did
        → List Capability
        → ℕ
        → ℕ
        → List Capability
        → Issued
    delegates self_sign_only now ctx n sub aud topics exp dep provide = ([], ctx, n)
    delegates _ now ctx n sub aud topics exp dep provide =
        issue_anchors
          (λ t c. allow_delegation t delegate (context_did ctx) aud topics (definitive exp t) c)
          (λ t drawn caps.
            delegate_token marshal t ctx.provider drawn sub aud topics (definitive exp t) dep caps)
          provide now ctx n (get_provide_anchors ctx)

    unfoldable pub delegate_all :
        ℕ
        → Context
        → ℕ
        → Did
        → Did
        → List Capability
        → ℕ
        → ℕ
        → List Capability
        → SelfSignMode
        → Result (List Token) × Context × ℕ
    delegate_all now ctx n sub aud topics exp dep [] mode = (ok [], ctx, n)
    delegate_all now ctx n sub aud topics exp dep (c ∷ cs) mode =
        let issued = delegates mode now ctx n sub aud topics exp dep (c ∷ cs) in
        (
          close mode issued.0
              (grant issued.1 (rand issued.2) delegate sub aud topics exp dep (c ∷ cs)),
          issued.1,
          issued.2 + 1,
        )

    -- `delegateInvocation`, for one anchor, and `DelegateInvocation`
    abbrev pub may_invoke : Did → Did → ℕ → Token → Capability → Bool
    may_invoke own aud exp t c = allow_delegation t invoke own aud [] exp c

    abbrev pub make_invocation :
        Provider → Did → Did → ℕ → Token → Result String → List Capability → Result Token
    make_invocation provider sub aud exp t drawn caps =
        delegate_invocation marshal t provider drawn sub aud exp caps

    -- The tokens chained on what the context holds about itself, and on its provide anchors.
    unfoldable pub invocations :
        SelfSignMode → ℕ → Context → ℕ → Did → Did → Did → ℕ → List Capability → Issued
    invocations mode now ctx n target sub aud exp provide =
        let may = may_invoke (context_did ctx) aud exp in
        let make = make_invocation ctx.provider sub aud exp in
        let read = get_subject_tokens ctx (context_did ctx) now in
        let own = issue_from may make provide target n read.0 in
        let more = issue_anchors may make provide now read.1 own.1 (get_provide_anchors read.1) in
        elim mode [
          | self_sign_only ↦ (own.0, read.1, own.1)
          | self_sign_no ↦ (own.0 ++ more.0, more.1, more.2)
          | self_sign_also ↦ (own.0 ++ more.0, more.1, more.2)
        ]

    unfoldable pub invocation_all :
        ℕ
        → Context
        → ℕ
        → Did
        → Did
        → Did
        → ℕ
        → List Capability
        → SelfSignMode
        → Result (List Token) × Context × ℕ
    invocation_all now ctx n target sub aud exp [] mode = (ok [], ctx, n)
    invocation_all now ctx n target sub aud exp (c ∷ cs) mode =
        let issued = invocations mode now ctx n target sub aud exp (c ∷ cs) in
        (
          close mode issued.0 (grant issued.1 (rand issued.2) invoke sub aud [] exp 0 (c ∷ cs)),
          issued.1,
          issued.2 + 1,
        )

    -- `delegateBroadcast` and `DelegateBroadcast`
    abbrev pub may_broadcast : Did → String → ℕ → Token → Capability → Bool
    may_broadcast own top exp t c = allow_delegation t broadcast own empty_did (top ∷ []) exp c

    abbrev pub make_broadcast :
        Provider → Did → String → ℕ → Token → Result String → List Capability → Result Token
    make_broadcast provider sub top exp t drawn caps =
        delegate_broadcast marshal t provider drawn sub top exp caps

    unfoldable pub broadcasts :
        SelfSignMode → ℕ → Context → ℕ → Did → String → ℕ → List Capability → Issued
    broadcasts self_sign_only now ctx n sub top exp provide = ([], ctx, n)
    broadcasts _ now ctx n sub top exp provide =
        issue_anchors (may_broadcast (context_did ctx) top exp)
          (make_broadcast ctx.provider sub top exp) provide now ctx n (get_provide_anchors ctx)

    unfoldable pub broadcast_all :
        ℕ
        → Context
        → ℕ
        → Did
        → String
        → ℕ
        → List Capability
        → SelfSignMode
        → Result (List Token) × Context × ℕ
    broadcast_all now ctx n sub top exp [] mode = (ok [], ctx, n)
    broadcast_all now ctx n sub top exp (c ∷ cs) mode =
        let issued = broadcasts mode now ctx n sub top exp (c ∷ cs) in
        (
          close mode issued.0
              (grant issued.1 (rand issued.2) broadcast sub empty_did (top ∷ []) exp 0 (c ∷ cs)),
          issued.1,
          issued.2 + 1,
        )
