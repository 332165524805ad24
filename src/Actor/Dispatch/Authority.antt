-- ===== src/Actor/Dispatch/Authority.antt =====
-- actor/dispatch.go: what a message that reaches a continuation has shown.
use device_management_servic.Common.{
  ℕ, String, Bool, true, false, List, ◌∷◌, none, some, Result, ok, ◌≡◌, Memᴰ, refl,
}
use device_management_servic.Common.Map.{lookup}
use device_management_servic.Ucan.Did.{Did, TrustContext}
use device_management_servic.Ucan.Token.{Token}
use device_management_servic.Ucan.Context.State.{context_did}
use device_management_servic.Ucan.Context.Reach.Decided.{Derived}
use device_management_servic.Actor.Message.{Envelope, is_broadcast_message}
use device_management_servic.Actor.Security.{to_self}
use device_management_servic.Actor.Security.Authority.{consumed, require_message-Derived}
use device_management_servic.Actor.Dispatch.{
  BehaviorState, Dispatch, expired_behavior, require_for, dispatch_message,
}
use device_management_servic.Actor.Dispatch.Runs.{runs}
use device_management_servic.Actor.Dispatch.Reaches.{Reaches, Checked, Reaches-Sound}

module _ {B : Type 0} (marshal : Token → Result String) (unmarshal : String → Result (List Token))
    (from_id : String → Result Did) (trust : TrustContext)
    (marshal_message : Envelope → Result String)
    (public_key : String → Result (String → String → Result Bool)) where
  -- Whatever messages and calls a kernel and its capability context have seen, a failed `AddRoots`
  -- excepted, and whatever security contexts with a reachable capability context it has been given
  -- by `UpdateSecurityContext`, if the kernel runs the continuation of a behavior for a message of
  -- another actor that is no broadcast, then the signature of the message was checked, the behavior
  -- is registered under its name and has not expired, and the key that sent the message has
  -- authority, derived from an anchor, for one of the capabilities of the behavior.
  pub dispatch_message-Derived :
      (now : ℕ) (msg : Envelope) (queue : List Envelope) (k : Dispatch B) (b : BehaviorState B)
      → Reaches marshal unmarshal from_id trust marshal_message public_key now k
      → k.verified_queue ≡ msg ∷ queue
      → (dispatch_message marshal unmarshal from_id trust now msg
          (record k { verified_queue = queue })).0
        ≡ some b
      → is_broadcast_message msg ≡ false
      → to_self k.sctx msg ≡ false
      → Checked marshal_message public_key now msg
        × (lookup msg.behavior k.behaviors ≡ some b)
        × (expired_behavior now b ≡ false)
        × ((sub : Did) × (aud : Did) × (from_id msg.from.id ≡ ok sub)
            × (from_id k.sctx.id ≡ ok aud)
            × Derived marshal trust now
                (consumed marshal unmarshal from_id trust now k.sctx msg b.capability).1
                (context_did k.sctx.cap)
                sub
                aud
                b.capability)
  unfolding require_for
  dispatch_message-Derived now msg queue k b reach q h one other =
      let s =
        Reaches-Sound marshal unmarshal from_id trust marshal_message public_key now k reach in
      let r =
        runs marshal unmarshal from_id trust now msg (record k { verified_queue = queue }) b h in
      let first : Memᴰ msg k.verified_queue = rw q (Memᴰ.head refl) in
      (
        s.queued msg first,
        r.registered,
        r.live,
        require_message-Derived marshal unmarshal from_id trust now k.sctx msg b.capability
            s.reached other (rw (one, require_for) at r.allowed),
      )

module _ {B : Type 0} (marshal : Token → Result String) (unmarshal : String → Result (List Token))
    (from_id : String → Result Did) (trust : TrustContext) where
  unregistered :
      (now : ℕ) (msg : Envelope) (k : Dispatch B)
      → lookup msg.behavior k.behaviors ≡ none
      → (dispatch_message marshal unmarshal from_id trust now msg k).0 ≡ none
  unfolding dispatch_message
  unregistered now msg k p = rw (p, dispatch_message) refl

  -- Once the continuation of a one-shot behavior has run, the next message for the behavior runs
  -- none.
  pub dispatch_message-one_shot :
      (now later : ℕ) (msg next : Envelope) (k : Dispatch B) (b : BehaviorState B)
      → (dispatch_message marshal unmarshal from_id trust now msg k).0 ≡ some b
      → b.one_shot ≡ true
      → next.behavior ≡ msg.behavior
      → (dispatch_message marshal unmarshal from_id trust later next
          (dispatch_message marshal unmarshal from_id trust now msg k).1).0
        ≡ none
  dispatch_message-one_shot now later msg next k b h once same =
      let r = runs marshal unmarshal from_id trust now msg k b h in
      unregistered later next (dispatch_message marshal unmarshal from_id trust now msg k).1
        (rw same (r.gone once))
