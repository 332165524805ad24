-- ===== src/Actor/Security/Authority.antt =====
-- actor/security.go: what `Require` guarantees of the sender of a message.
use device_management_servic.Common.{
  ℕ, String, Bool-cases, false, str_eq, List, Result, Result-cases, ok, ◌≡◌, inl, inr,
}
use device_management_servic.Ucan.Capability.{Capability}
use device_management_servic.Ucan.Did.{Did, TrustContext}
use device_management_servic.Ucan.Token.{Token}
use device_management_servic.Ucan.Context.State.{Context, context_did}
use device_management_servic.Ucan.Context.Consume.{consume}
use device_management_servic.Ucan.Context.Discard.{discard}
use device_management_servic.Ucan.Context.Require.{require_invocation, require_broadcast}
use device_management_servic.Ucan.Context.Reach.{
  Reachable, calls, consumes, discards, requires, hears,
}
use device_management_servic.Ucan.Context.Reach.Decided.{Derived, Reachable-require_invocation}
use device_management_servic.Actor.Message.{Envelope, is_broadcast_message}
use device_management_servic.Actor.Security.{
  BasicSecurityContext, to_self, require_message, require_broadcast_message,
}

module _ (marshal : Token → Result String) (unmarshal : String → Result (List Token))
    (from_id : String → Result Did) (trust : TrustContext) (now : ℕ) (s : BasicSecurityContext)
    (msg : Envelope) (caps : List Capability) where
  -- The context once the tokens of the message have been consumed
  abbrev pub consumed : Result (Unit {0}) × Context
  consumed = consume marshal trust now unmarshal s.cap msg.from.did msg.capability

  abbrev required : Result (Unit {0}) × Context
  required = require_invocation from_id consumed.1 now (context_did s.cap) msg.from.id s.id caps

  abbrev heard : String → Result (Unit {0}) × Context
  heard topic = require_broadcast from_id consumed.1 now (context_did s.cap) msg.from.id topic caps

  -- Contexts that the capability calls of one message lead to
  after_consume :
      Reachable marshal unmarshal from_id trust now s.cap
      → Reachable marshal unmarshal from_id trust now consumed.1
  after_consume r = calls now s.cap consumed.1 r (consumes s.cap msg.from.did msg.capability)

  after_discard :
      (ctx : Context)
      → Reachable marshal unmarshal from_id trust now ctx
      → Reachable marshal unmarshal from_id trust now (discard unmarshal ctx msg.capability)
  after_discard ctx r =
      calls now ctx (discard unmarshal ctx msg.capability) r (discards ctx msg.capability)

  after_require :
      Reachable marshal unmarshal from_id trust now s.cap
      → Reachable marshal unmarshal from_id trust now required.1
  after_require r =
      calls now consumed.1 required.1 (after_consume r)
        (requires consumed.1 (context_did s.cap) msg.from.id s.id caps)

  after_hear :
      (topic : String)
      → Reachable marshal unmarshal from_id trust now s.cap
      → Reachable marshal unmarshal from_id trust now (heard topic).1
  after_hear topic r =
      calls now consumed.1 (heard topic).1 (after_consume r)
        (hears consumed.1 (context_did s.cap) msg.from.id topic caps)

  pub require_message-Reachable :
      Reachable marshal unmarshal from_id trust now s.cap
      → Reachable marshal unmarshal from_id trust now
          (require_message marshal unmarshal from_id trust now s msg caps).1.cap
  unfolding require_message
  require_message-Reachable r = elim (Bool-cases (to_self s msg)) [
    | inl own ↦ rw (own, require_message) r
    | inr other ↦ elim (Result-cases consumed.0) [
      | inr (e, p) ↦ rw (other, p, require_message) (after_consume r)
      | inl (done, p) ↦ elim (Result-cases required.0) [
        | inr (e, q) ↦
            rw (other, p, q, require_message) (after_discard required.1 (after_require r))
        | inl (allowed, q) ↦ rw (other, p, q, require_message) (after_require r)
      ]
    ]
  ]

  pub require_broadcast_message-Reachable :
      (topic : String)
      → Reachable marshal unmarshal from_id trust now s.cap
      → Reachable marshal unmarshal from_id trust now
          (require_broadcast_message marshal unmarshal from_id trust now s msg topic caps).1.cap
  unfolding require_broadcast_message
  require_broadcast_message-Reachable topic r = elim (Bool-cases (is_broadcast_message msg)) [
    | inr other ↦ rw (other, require_broadcast_message) r
    | inl own ↦ elim (Bool-cases (str_eq topic msg.topic)) [
      | inr wrong ↦ rw (own, wrong, require_broadcast_message) r
      | inl same ↦ elim (Result-cases consumed.0) [
        | inr (e, p) ↦ rw (own, same, p, require_broadcast_message) (after_consume r)
        | inl (done, p) ↦ elim (Result-cases (heard topic).0) [
          | inr (e, q) ↦
              rw (own, same, p, q, require_broadcast_message)
                (after_discard (heard topic).1 (after_hear topic r))
          | inl (allowed, q) ↦ rw (own, same, p, q, require_broadcast_message) (after_hear topic r)
        ]
      ]
    ]
  ]

  -- If the security context lets a message of another actor pass, the sender's key has authority
  -- that derives from an anchor of the context, once the tokens of the message are consumed.
  pub require_message-Derived :
      Reachable marshal unmarshal from_id trust now s.cap
      → to_self s msg ≡ false
      → (require_message marshal unmarshal from_id trust now s msg caps).0 ≡ ok tt
      → (sub : Did) × (aud : Did) × (from_id msg.from.id ≡ ok sub)
        × (from_id s.id ≡ ok aud)
        × Derived marshal trust now consumed.1 (context_did s.cap) sub aud caps
  unfolding require_message
  require_message-Derived r other h = elim (Result-cases consumed.0) [
    | inr (e, p) ↦ cc (rw (other, p, require_message) at h)
    | inl (done, p) ↦ elim (Result-cases required.0) [
      | inr (e, q) ↦ cc (rw (other, p, q, require_message) at h)
      | inl (allowed, q) ↦
          Reachable-require_invocation marshal unmarshal from_id trust now consumed.1
            (context_did s.cap) msg.from.id s.id caps (after_consume r) q
    ]
  ]
