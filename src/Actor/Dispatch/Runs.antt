-- ===== src/Actor/Dispatch/Runs.antt =====
-- actor/dispatch.go: the kernels that any messages and calls lead to, and what a message that
-- reaches a continuation has shown.
use device_management_servic.Common.{
  ℕ, String, Bool-cases, true, false, List, Option-cases, none, some, Result, Result-cases, ok, ◌≡◌,
  refl, subst, str_eq_refl, inl, inr,
}
use device_management_servic.Common.Map.{lookup, lookup-erase}
use device_management_servic.Ucan.Did.{Did, TrustContext}
use device_management_servic.Ucan.Token.{Token}
use device_management_servic.Ucan.Context.Discard.{discard}
use device_management_servic.Ucan.Context.Reach.{Reachable, calls, discards}
use device_management_servic.Actor.Message.{Envelope, is_broadcast_message}
use device_management_servic.Actor.Limiter.{acquire}
use device_management_servic.Actor.Security.{BasicSecurityContext}
use device_management_servic.Actor.Security.Authority.{
  require_message-Reachable, require_broadcast_message-Reachable,
}
use device_management_servic.Actor.Dispatch.{
  BehaviorState, Dispatch, expired_behavior, require_for, dispatch_message,
}

module _ {B : Type 0} (marshal : Token → Result String) (unmarshal : String → Result (List Token))
    (from_id : String → Result Did) (trust : TrustContext) where
  require_for-Reachable :
      (now : ℕ) (s : BasicSecurityContext) (msg : Envelope) (b : BehaviorState B)
      → Reachable marshal unmarshal from_id trust now s.cap
      → Reachable marshal unmarshal from_id trust now
          (require_for marshal unmarshal from_id trust now s msg b).1.cap
  unfolding require_for
  require_for-Reachable now s msg b r = elim (Bool-cases (is_broadcast_message msg)) [
    | inl all ↦
        rw (all, require_for)
          (require_broadcast_message-Reachable marshal unmarshal from_id trust now s msg
            b.capability b.topic r)
    | inr one ↦
        rw (one, require_for)
          (require_message-Reachable marshal unmarshal from_id trust now s msg b.capability r)
  ]

  pub dispatch-Reachable :
      (now : ℕ) (msg : Envelope) (k : Dispatch B)
      → Reachable marshal unmarshal from_id trust now k.sctx.cap
      → Reachable marshal unmarshal from_id trust now
          (dispatch_message marshal unmarshal from_id trust now msg k).1.sctx.cap
  unfolding dispatch_message
  dispatch-Reachable now msg k r = elim (Option-cases (lookup msg.behavior k.behaviors)) [
    | inl p ↦ rw (p, dispatch_message) r
    | inr (b, p) ↦ elim (Bool-cases (expired_behavior now b)) [
      | inl old ↦ rw (p, old, dispatch_message) r
      | inr live ↦
          let required = (require_for marshal unmarshal from_id trust now k.sctx msg b).1 in
          let after = require_for-Reachable now k.sctx msg b r in
          elim (Result-cases (require_for marshal unmarshal from_id trust now k.sctx msg b).0) [
            | inr (e, q) ↦ rw (p, live, q, dispatch_message) after
            | inl (allowed, q) ↦ elim (Result-cases (acquire k.limiter msg).0) [
              | inr (e, a) ↦
                  rw (p, live, q, a, dispatch_message)
                    (calls now required.cap (discard unmarshal required.cap msg.capability) after
                      (discards required.cap msg.capability))
              | inl (room, a) ↦ rw (p, live, q, a, dispatch_message) after
            ]
          ]
    ]
  ]

  -- What has led to the continuation of a behavior.
  pub record Runs (now : ℕ) (msg : Envelope) (k : Dispatch B) (b : BehaviorState B) : Type 0 where
    pub registered : lookup msg.behavior k.behaviors ≡ some b
    pub live : expired_behavior now b ≡ false
    pub allowed : (require_for marshal unmarshal from_id trust now k.sctx msg b).0 ≡ ok tt
    pub gone :
        b.one_shot ≡ true
        → lookup msg.behavior
            (dispatch_message marshal unmarshal from_id trust now msg k).1.behaviors
          ≡ none

  pub runs :
      (now : ℕ) (msg : Envelope) (k : Dispatch B) (b : BehaviorState B)
      → (dispatch_message marshal unmarshal from_id trust now msg k).0 ≡ some b
      → Runs now msg k b
  unfolding dispatch_message
  runs now msg k b h = elim (Option-cases (lookup msg.behavior k.behaviors)) [
    | inl p ↦ cc (rw (p, dispatch_message) at h)
    | inr (c, p) ↦ elim (Bool-cases (expired_behavior now c)) [
      | inl old ↦ cc (rw (p, old, dispatch_message) at h)
      | inr live ↦
          elim (Result-cases (require_for marshal unmarshal from_id trust now k.sctx msg c).0) [
            | inr (e, q) ↦ cc (rw (p, live, q, dispatch_message) at h)
            | inl (allowed, q) ↦ elim (Result-cases (acquire k.limiter msg).0) [
              | inr (e, a) ↦ cc (rw (p, live, q, a, dispatch_message) at h)
              | inl (room, a) ↦
                  let e : some c ≡ some b = rw (p, live, q, a, dispatch_message) at h in
                  let same : c ≡ b = cc in
                  let first : Runs now msg k c = record {
                    registered = p;
                    live = live;
                    allowed = q;
                    gone = λ once.
                        rw (p, live, q, a, once, dispatch_message)
                          (rw
                            (
                              lookup-erase msg.behavior msg.behavior k.behaviors,
                              str_eq_refl msg.behavior,
                            )
                            refl);
                  } in
                  subst (λ x. Runs now msg k x) same first
            ]
          ]
    ]
  ]
