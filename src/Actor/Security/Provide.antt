-- ===== src/Actor/Security/Provide.antt =====
-- actor/security.go: messages that carry tokens, and grants. `n` counts the random draws; `expire`
-- is what `MakeExpiry` gives.
use device_management_servic.Common.{
  ℕ, ◌≤◌, String, false, if◌then◌else◌, str_eq, not, List, [], ◌∷◌, Memᴰ, Result, Result-cases, inl,
  inr, ok, err, ◌>>=◌, invalid_message, ◌≡◌, refl,
}
use device_management_servic.Ucan.Capability.{Capability}
use device_management_servic.Ucan.Did.{Did, TrustContext}
use device_management_servic.Ucan.Token.{Token, delegate, revoked, revocation_key}
use device_management_servic.Ucan.Delegate.Roundtrip.{SignsFor}
use device_management_servic.Ucan.Context.State.{Context}
use device_management_servic.Ucan.Context.Roots.{add_roots}
use device_management_servic.Ucan.Context.Roots.Kept.{Accepted, add_roots-Accepted}
use device_management_servic.Ucan.Context.Invariant.{IsSound}
use device_management_servic.Ucan.Context.Reach.{Step}
use device_management_servic.Ucan.Context.Provide.{grant}
use device_management_servic.Ucan.Context.Provide.Grants.{grant-Verifies}
use device_management_servic.Ucan.Context.Provide.Request.{provide, provide_broadcast}
use device_management_servic.Actor.Message.{Envelope, is_broadcast_message}
use device_management_servic.Actor.Security.{BasicSecurityContext, to_self, sign_message}

module _ (rand : ℕ → Result String) (marshal : Token → Result String) where
  module _ (from_id : String → Result Did) (marshal_list : List Token → Result String)
      (marshal_message : Envelope → Result String) (sign : String → Result String) (now : ℕ) where
    -- The tail of `Provide` and `ProvideBroadcast`: the tokens go into the message.
    unfoldable pub sign_with :
        BasicSecurityContext
        → Envelope
        → Result String × Context × ℕ
        → Result Envelope × BasicSecurityContext × ℕ
    sign_with s msg tokens = (
      tokens.0 >>= λ blob. sign_message marshal_message sign s (record msg { capability = blob }),
      record s { cap = tokens.1 },
      tokens.2,
    )

    -- `Provide`
    unfoldable pub provide_message :
        BasicSecurityContext
        → ℕ
        → Envelope
        → List Capability
        → List Capability
        → Result Envelope × BasicSecurityContext × ℕ
    unfolding sign_with
    provide_message s n msg invoke delegated =
        if to_self s msg
        then (sign_message marshal_message sign s msg, s, n)
        else sign_with s msg (
            provide rand marshal from_id marshal_list now s.cap n msg.to.did s.id msg.to.id
              msg.expire invoke delegated)

    -- `ProvideBroadcast`
    unfoldable pub provide_broadcast_message :
        BasicSecurityContext
        → ℕ
        → Envelope
        → String
        → List Capability
        → Result Envelope × BasicSecurityContext × ℕ
    unfolding sign_with
    provide_broadcast_message s n msg topic broadcast =
        if not (is_broadcast_message msg)
        then (err invalid_message, s, n)
        else if not (str_eq topic msg.topic)
        then (err invalid_message, s, n)
        else sign_with s msg (
            provide_broadcast rand marshal from_id marshal_list now s.cap n msg.from.id topic
              msg.expire broadcast)

  module _ (trust : TrustContext) (now : ℕ) where
    -- `Grant`
    unfoldable pub grant_message :
        BasicSecurityContext
        → ℕ
        → Did
        → Did
        → List Capability
        → ℕ
        → Result (Unit {0}) × BasicSecurityContext
    grant_message s n sub aud caps expire =
        elim (grant rand marshal s.cap (rand n) delegate sub aud [] expire 1 caps) [
          | err e ↦ (err e, s)
          | ok tokens ↦
              let added = add_roots marshal trust now s.cap [] tokens [] [] in
              (added.0, record s { cap = added.1 })
        ]

    -- If the capability context of an actor is sound, its provider signs for its DID and the expiry
    -- is not past, then `Grant` succeeds with what it issues, unless the key of the token is
    -- revoked, and the token, or one that subsumes it, is in the side chain of its issuer for
    -- require.
    pub grant_message-Accepted :
        (s : BasicSecurityContext) (n : ℕ) (sub aud : Did) (caps : List Capability) (expire : ℕ)
        (t : Token)
        → IsSound marshal trust now s.cap
        → SignsFor marshal trust s.cap.provider
        → now ≤ expire
        → grant rand marshal s.cap (rand n) delegate sub aud [] expire 1 caps ≡ ok (t ∷ [])
        → revoked s.cap.revoke (revocation_key t) ≡ false
        → ((grant_message s n sub aud caps expire).0 ≡ ok tt)
          × Accepted (grant_message s n sub aud caps expire).1.cap.require t
    unfolding grant_message
    grant_message-Accepted s n sub aud caps expire t sound signs later h fresh =
        let v =
          grant-Verifies marshal trust rand now s.cap.revoke s.cap (rand n) delegate sub aud []
            expire 1 caps (t ∷ []) t signs later refl h (Memᴰ.head refl) fresh in
        rw (h, grant_message) (add_roots-Accepted marshal trust now s.cap t sound v)

    -- A `Grant` that succeeds is a call of the capability context.
    pub grant_message-Step :
        (unmarshal : String → Result (List Token)) (from_id : String → Result Did)
        (s : BasicSecurityContext) (n : ℕ) (sub aud : Did) (caps : List Capability) (expire : ℕ)
        → (grant_message s n sub aud caps expire).0 ≡ ok tt
        → Step marshal unmarshal from_id trust now s.cap
            (grant_message s n sub aud caps expire).1.cap
    unfolding grant_message
    grant_message-Step unmarshal from_id s n sub aud caps expire h =
        elim (Result-cases (grant rand marshal s.cap (rand n) delegate sub aud [] expire 1 caps)) [
          | inr (e, p) ↦ cc (rw (p, grant_message) at h)
          | inl (tokens, p) ↦
              rw (p, grant_message) (Step.adds s.cap [] tokens [] [] (rw (p, grant_message) at h))
        ]
