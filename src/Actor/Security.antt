-- ===== src/Actor/Security.antt =====
-- actor/security.go, actor/msg.go: the security context of an actor. Its private key is the
-- operation `sign`; `public_key` is `crypto.PublicKeyFromID`, which gives what checks a signature.
pub mod Signatures
pub mod Authority
pub mod Provide
use Prim.Native.String
use device_management_servic.Common.{
  ℕ, ◌+◌, ◌%◌, String, Bool, true, false, if◌then◌else◌, ltb, str_eq, not, ◌&&◌, List, [], Result,
  ok, err, ◌>>=◌, message_expired, signature_verification, bad_sender, invalid_message,
}
use device_management_servic.Ucan.Capability.{Capability}
use device_management_servic.Ucan.Did.{Did, TrustContext}
use device_management_servic.Ucan.Token.{Token, u64_mod}
use device_management_servic.Ucan.Context.State.{Context, context_did}
use device_management_servic.Ucan.Context.Consume.{consume}
use device_management_servic.Ucan.Context.Discard.{discard}
use device_management_servic.Ucan.Context.Require.{require_invocation, require_broadcast}
use device_management_servic.Actor.Message.{Envelope, is_broadcast_message}

pub record BasicSecurityContext : Type 0 where
  pub id : String
  pub cap : Context
  pub nonce : ℕ

-- `Nonce`
unfoldable pub next_nonce : BasicSecurityContext → ℕ × BasicSecurityContext
next_nonce s = (s.nonce, record s { nonce = (s.nonce + 1) % u64_mod })

-- `Expired`
unfoldable pub expired_message : ℕ → Envelope → Bool
expired_message now msg = ltb msg.expire now

-- A message to oneself
unfoldable pub to_self : BasicSecurityContext → Envelope → Bool
to_self s msg = str_eq s.id msg.from.id && str_eq s.id msg.to.id

-- `signaturePrefix`
abbrev pub message_prefix : String
message_prefix = "dms:msg:"

module _ (marshal_message : Envelope → Result String) where
  -- `Envelope.SignatureData`
  unfoldable pub message_data : Envelope → Result String
  message_data msg = marshal_message (record msg { signature = "" }) >>= λ bytes.
      ok (String.◌++◌ message_prefix bytes)

  -- `Sign`
  unfoldable pub sign_message :
      (String → Result String) → BasicSecurityContext → Envelope → Result Envelope
  unfolding message_data
  sign_message sign s msg =
      if not (str_eq s.id msg.from.id)
      then err bad_sender
      else message_data msg >>= λ bytes. sign bytes >>= λ sig. ok (record msg { signature = sig })

  -- `Verify`
  unfoldable pub verify_message :
      (String → Result (String → String → Result Bool)) → ℕ → Envelope → Result (Unit {0})
  unfolding message_data expired_message
  verify_message public_key now msg =
      if expired_message now msg
      then err message_expired
      else public_key msg.from.id >>= λ check. message_data msg >>= λ bytes.
          check bytes msg.signature >>= λ valid. if valid then ok tt else err signature_verification

-- `Discard`
abbrev pub discard_message :
    (String → Result (List Token)) → BasicSecurityContext → Envelope → BasicSecurityContext
discard_message unmarshal s msg = record s { cap = discard unmarshal s.cap msg.capability }

module _ (marshal : Token → Result String) (unmarshal : String → Result (List Token))
    (from_id : String → Result Did) (trust : TrustContext) (now : ℕ) where
  -- `Require`
  unfoldable pub require_message :
      BasicSecurityContext → Envelope → List Capability → Result (Unit {0}) × BasicSecurityContext
  unfolding to_self
  require_message s msg invoke =
      if to_self s msg
      then (ok tt, s)
      else (let consumed = consume marshal trust now unmarshal s.cap msg.from.did msg.capability in
          elim consumed.0 [
            | err e ↦ (err e, record s { cap = consumed.1 })
            | ok done ↦
                let required =
                  require_invocation from_id consumed.1 now (context_did s.cap) msg.from.id s.id
                    invoke in
                elim required.0 [
                  | err e ↦ (err e, record s { cap = discard unmarshal required.1 msg.capability })
                  | ok allowed ↦ (ok tt, record s { cap = required.1 })
                ]
          ])

  -- `RequireBroadcast`
  unfoldable pub require_broadcast_message :
      BasicSecurityContext
      → Envelope
      → String
      → List Capability
      → Result (Unit {0}) × BasicSecurityContext
  require_broadcast_message s msg topic broadcast =
      if not (is_broadcast_message msg)
      then (err invalid_message, s)
      else if not (str_eq topic msg.topic)
      then (err invalid_message, s)
      else (let consumed = consume marshal trust now unmarshal s.cap msg.from.did msg.capability in
          elim consumed.0 [
            | err e ↦ (err e, record s { cap = consumed.1 })
            | ok done ↦
                let required =
                  require_broadcast from_id consumed.1 now (context_did s.cap) msg.from.id topic
                    broadcast in
                elim required.0 [
                  | err e ↦ (err e, record s { cap = discard unmarshal required.1 msg.capability })
                  | ok allowed ↦ (ok tt, record s { cap = required.1 })
                ]
          ])
