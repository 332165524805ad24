-- ===== src/Actor/Security/Signatures.antt =====
-- actor/security.go: a message that is signed and not late is accepted.
use device_management_servic.Common.{
  ℕ, String, Bool, Bool-cases, true, false, str_eq, Result, Result-cases, ok, ◌≡◌, ◌∙◌, str_eq_iff,
  refl, inl, inr,
}
use device_management_servic.Actor.Message.{Envelope}
use device_management_servic.Actor.Security.{
  BasicSecurityContext, expired_message, message_data, sign_message, verify_message,
}

-- The private key behind `sign` is that of the identifier: what it signs, the public key accepts.
pub record SignsAs (public_key : String → Result (String → String → Result Bool))
    (sign : String → Result String) (id : String) : Type 0 where
  pub check : String → String → Result Bool
  pub known : public_key id ≡ ok check
  pub accepts : (bytes sig : String) → sign bytes ≡ ok sig → check bytes sig ≡ ok true

module _ (marshal_message : Envelope → Result String)
    (public_key : String → Result (String → String → Result Bool)) (sign : String → Result String)
    (s : BasicSecurityContext) where
  message_data-signature :
      (msg : Envelope) (sig : String)
      → message_data marshal_message (record msg { signature = sig })
        ≡ message_data marshal_message msg
  unfolding message_data
  message_data-signature msg sig = refl

  expired_message-signature :
      (now : ℕ) (msg : Envelope) (sig : String)
      → expired_message now (record msg { signature = sig }) ≡ expired_message now msg
  unfolding expired_message
  expired_message-signature now msg sig = refl

  signed_as :
      (msg signed : Envelope)
      → sign_message marshal_message sign s msg ≡ ok signed
      → (bytes : String) × (sig : String) × (s.id ≡ msg.from.id)
        × (message_data marshal_message msg ≡ ok bytes)
        × (sign bytes ≡ ok sig)
        × (record msg { signature = sig } ≡ signed)
  unfolding sign_message
  signed_as msg signed h = elim (Bool-cases (str_eq s.id msg.from.id)) [
    | inr other ↦ cc (rw (other, sign_message) at h)
    | inl own ↦ elim (Result-cases (message_data marshal_message msg)) [
      | inr (r, p) ↦ cc (rw (own, p, sign_message) at h)
      | inl (bytes, p) ↦ elim (Result-cases (sign bytes)) [
        | inr (r, q) ↦ cc (rw (own, p, q, sign_message) at h)
        | inl (sig, q) ↦ (
          bytes,
          sig,
          (str_eq_iff s.id msg.from.id).0 own,
          p,
          q,
          cc (rw (own, p, q, sign_message) at h),
        )
      ]
    ]
  ]

  -- A message that an actor signs verifies until it expires, if its key is the one of its
  -- identifier.
  pub sign_message-verify :
      (now : ℕ) (msg signed : Envelope)
      → SignsAs public_key sign s.id
      → sign_message marshal_message sign s msg ≡ ok signed
      → expired_message now msg ≡ false
      → verify_message marshal_message public_key now signed ≡ ok tt
  unfolding verify_message
  sign_message-verify now msg signed k h e =
      let (bytes, sig, own, p, q, f) = signed_as msg signed h in
      let key : public_key msg.from.id ≡ ok k.check = rw own at k.known in
      let late = expired_message-signature now msg sig ∙ e in
      let content = message_data-signature msg sig ∙ p in
      rw⁻¹ f (rw (late, key, content, k.accepts bytes sig q, verify_message) refl)
