-- ===== src/Actor/Dispatch.antt =====
-- actor/dispatch.go: the kernel of an actor: which behaviors it has, and which message reaches one.
-- A continuation is a value of a type `B`. The queues keep the order of the messages: a message is
-- verified, later dispatched, and released once its continuation is done.
pub mod Runs
pub mod Reaches
pub mod Authority
mod Tests
use device_management_servic.Common.{
  ℕ, String, Bool, true, false, if◌then◌else◌, ltb, ◌&&◌, List, [], ◌∷◌, ◌++◌, length, Option, none,
  some, Result, ok, err,
}
use device_management_servic.Common.Map.{Map, lookup, insert, erase, prune}
use device_management_servic.Ucan.Capability.{Capability}
use device_management_servic.Ucan.Did.{Did, TrustContext}
use device_management_servic.Ucan.Token.{Token}
use device_management_servic.Actor.Message.{Envelope, is_broadcast_message}
use device_management_servic.Actor.Limiter.{BasicRateLimiter, acquire, release}
use device_management_servic.Actor.Security.{
  BasicSecurityContext, verify_message, require_message, require_broadcast_message, discard_message,
}

-- `BehaviorState`, with its `BehaviorOptions`
pub record BehaviorState (B : Type 0) : Type 0 where
  pub cont : B
  pub capability : List Capability
  pub expire : ℕ
  pub one_shot : Bool
  pub topic : String

pub record Dispatch (B : Type 0) : Type 0 where
  pub sctx : BasicSecurityContext
  pub verified_queue : List Envelope
  pub behaviors : Map (BehaviorState B)
  pub limiter : BasicRateLimiter

module _ {B : Type 0} where
  -- `AddBehavior`, with the options applied
  unfoldable pub add_behavior : String → BehaviorState B → Dispatch B → Dispatch B
  add_behavior behavior st k = record k { behaviors = insert behavior st k.behaviors }

  -- `RemoveBehavior`
  unfoldable pub remove_behavior : String → Dispatch B → Dispatch B
  remove_behavior behavior k = record k { behaviors = erase behavior k.behaviors }

  -- `UpdateSecurityContext`
  unfoldable pub update_security_context : BasicSecurityContext → Dispatch B → Dispatch B
  update_security_context next k = record k { sctx = next }

  -- `BehaviorState.Expired`
  unfoldable pub expired_behavior : ℕ → BehaviorState B → Bool
  expired_behavior now b = ltb 0 b.expire && ltb b.expire now

  -- A round of `recv`, for the message that it takes: the queue of verified messages has room for
  -- a hundred.
  unfoldable pub recv_message :
      (Envelope → Result String)
      → (String → Result (String → String → Result Bool))
      → ℕ
      → Envelope
      → Dispatch B
      → Dispatch B
  recv_message marshal_message public_key now msg k =
      elim (verify_message marshal_message public_key now msg) [
        | err e ↦ k
        | ok done ↦
            if ltb (length k.verified_queue) 100
            then record k { verified_queue = k.verified_queue ++ msg ∷ [] }
            else k
      ]

  -- A round of `gc`
  unfoldable pub gc_behaviors : ℕ → Dispatch B → Dispatch B
  unfolding expired_behavior
  gc_behaviors now k = record k { behaviors = prune (λ b. b) (expired_behavior now) k.behaviors }

module _ {B : Type 0} (marshal : Token → Result String) (unmarshal : String → Result (List Token))
    (from_id : String → Result Did) (trust : TrustContext) (now : ℕ) where
  -- `RequireBroadcast` for a broadcast, `Require` for any other message
  unfoldable pub require_for :
      BasicSecurityContext → Envelope → BehaviorState B → Result (Unit {0}) × BasicSecurityContext
  require_for s msg b =
      if is_broadcast_message msg
      then require_broadcast_message marshal unmarshal from_id trust now s msg b.topic b.capability
      else require_message marshal unmarshal from_id trust now s msg b.capability

  -- A round of `dispatch`, for the message that it takes: the behavior whose continuation runs
  unfoldable pub dispatch_message : Envelope → Dispatch B → Option (BehaviorState B) × Dispatch B
  unfolding expired_behavior require_for
  dispatch_message msg k = elim (lookup msg.behavior k.behaviors) [
    | none ↦ (none, k)
    | some b ↦
        if expired_behavior now b
        then (none, record k { behaviors = erase msg.behavior k.behaviors })
        else (let required = require_for k.sctx msg b in
            elim required.0 [
              | err e ↦ (none, record k { sctx = required.1 })
              | ok allowed ↦
                  let behaviors =
                    if b.one_shot then erase msg.behavior k.behaviors else k.behaviors in
                  let acquired = acquire k.limiter msg in
                  elim acquired.0 [
                    | err e ↦ (
                      none,
                      record k {
                        sctx = discard_message unmarshal required.1 msg;
                        behaviors = behaviors;
                        limiter = acquired.1;
                      },
                    )
                    | ok room ↦ (
                      some b,
                      record k { sctx = required.1; behaviors = behaviors; limiter = acquired.1 },
                    )
                  ]
            ])
  ]
