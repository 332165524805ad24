-- ===== src/Actor/Dispatch/Reaches.antt =====
-- actor/dispatch.go: the kernels that any messages and calls lead to.
use mathlib.Core.List.Memᴰ
use device_management_servic.Common.{
  ℕ, ◌≤◌, ltb, length, String, Bool, Bool-cases, List, [], ◌∷◌, Memᴰ, Option-cases, Result,
  Result-cases, ok, ◌≡◌, refl, arith, inl, inr,
}
use device_management_servic.Common.Map.{lookup}
use device_management_servic.Ucan.Did.{Did, TrustContext}
use device_management_servic.Ucan.Token.{Token}
use device_management_servic.Ucan.Context.State.{Context}
use device_management_servic.Ucan.Context.Reach.{Reachable, Step, waits}
use device_management_servic.Actor.Message.{Envelope}
use device_management_servic.Actor.Limiter.{acquire, release}
use device_management_servic.Actor.Security.{BasicSecurityContext, verify_message}
use device_management_servic.Actor.Dispatch.{
  BehaviorState, Dispatch, add_behavior, remove_behavior, expired_behavior, recv_message,
  gc_behaviors, update_security_context, require_for, dispatch_message,
}
use device_management_servic.Actor.Dispatch.Runs.{dispatch-Reachable}

-- A message whose signature was checked by now.
pub record Checked (marshal_message : Envelope → Result String)
    (public_key : String → Result (String → String → Result Bool)) (now : ℕ) (msg : Envelope)
    : Type 0 where
  pub time : ℕ
  pub before : time ≤ now
  pub verified : verify_message marshal_message public_key time msg ≡ ok tt

module _ {B : Type 0} (marshal : Token → Result String) (unmarshal : String → Result (List Token))
    (from_id : String → Result Did) (trust : TrustContext)
    (marshal_message : Envelope → Result String)
    (public_key : String → Result (String → String → Result Bool)) where
  -- The kernels that a program can reach: a round of a loop, a call of the kernel, or a call of its
  -- capability context (`capabilities`) while it runs. The last is what `Grant`, `Provide` and
  -- `Discard` of the security context do, and what the behaviors for capabilities call.
  pub data Reaches : ℕ → Dispatch B → Type 0 where
    starts :
        (now : ℕ) (k : Dispatch B)
        → Reachable marshal unmarshal from_id trust now k.sctx.cap
        → k.verified_queue ≡ []
        → Reaches now k
    receives :
        (now : ℕ) (msg : Envelope) (k : Dispatch B)
        → Reaches now k
        → Reaches now (recv_message marshal_message public_key now msg k)
    dispatches :
        (now : ℕ) (msg : Envelope) (queue : List Envelope) (k : Dispatch B)
        → Reaches now k
        → k.verified_queue ≡ msg ∷ queue
        → Reaches now
            (dispatch_message marshal unmarshal from_id trust now msg
              (record k { verified_queue = queue })).1
    finishes :
        (now : ℕ) (msg : Envelope) (k : Dispatch B)
        → Reaches now k
        → Reaches now (record k { limiter = release k.limiter msg })
    adds :
        (now : ℕ) (behavior : String) (b : BehaviorState B) (k : Dispatch B)
        → Reaches now k
        → Reaches now (add_behavior behavior b k)
    removes :
        (now : ℕ) (behavior : String) (k : Dispatch B)
        → Reaches now k
        → Reaches now (remove_behavior behavior k)
    collects : (now : ℕ) (k : Dispatch B) → Reaches now k → Reaches now (gc_behaviors now k)
    capabilities :
        (now : ℕ) (cap : Context) (k : Dispatch B)
        → Reaches now k
        → Step marshal unmarshal from_id trust now k.sctx.cap cap
        → Reaches now (record k { sctx = record k.sctx { cap = cap } })
    updates :
        (now : ℕ) (s : BasicSecurityContext) (k : Dispatch B)
        → Reaches now k
        → Reachable marshal unmarshal from_id trust now s.cap
        → Reaches now (update_security_context s k)
    passes : (now later : ℕ) (k : Dispatch B) → now ≤ later → Reaches now k → Reaches later k

  pub record Sound (now : ℕ) (k : Dispatch B) : Type 0 where
    pub reached : Reachable marshal unmarshal from_id trust now k.sctx.cap
    pub queued : (m : Envelope) → Memᴰ m k.verified_queue → Checked marshal_message public_key now m

  recv-Sound :
      (now : ℕ) (msg : Envelope) (k : Dispatch B)
      → Sound now k
      → Sound now (recv_message marshal_message public_key now msg k)
  unfolding recv_message
  recv-Sound now msg k s = elim (Result-cases (verify_message marshal_message public_key now msg)) [
    | inr (e, p) ↦ rw (p, recv_message) s
    | inl (done, p) ↦ elim (Bool-cases (ltb (length k.verified_queue) 100)) [
      | inr full ↦ rw (p, full, recv_message) s
      | inl room ↦
          rw (p, room, recv_message)
            (record {
              reached = s.reached;
              queued = λ m i. elim (Memᴰ.append_cases k.verified_queue i) [
                | inl old ↦ s.queued m old
                | inr new ↦ record {
                  time = now;
                  before = omega arith;
                  verified = rw (Memᴰ.eq_of_singleton new) p;
                }
              ];
            })
    ]
  ]

  dispatch-queue :
      (now : ℕ) (msg : Envelope) (k : Dispatch B)
      → (dispatch_message marshal unmarshal from_id trust now msg k).1.verified_queue
        ≡ k.verified_queue
  unfolding dispatch_message
  dispatch-queue now msg k = elim (Option-cases (lookup msg.behavior k.behaviors)) [
    | inl p ↦ rw (p, dispatch_message) refl
    | inr (b, p) ↦ elim (Bool-cases (expired_behavior now b)) [
      | inl old ↦ rw (p, old, dispatch_message) refl
      | inr live ↦
          elim (Result-cases (require_for marshal unmarshal from_id trust now k.sctx msg b).0) [
            | inr (e, q) ↦ rw (p, live, q, dispatch_message) refl
            | inl (allowed, q) ↦ elim (Result-cases (acquire k.limiter msg).0) [
              | inr (e, a) ↦ rw (p, live, q, a, dispatch_message) refl
              | inl (room, a) ↦ rw (p, live, q, a, dispatch_message) refl
            ]
          ]
    ]
  ]

  pub Reaches-Sound : (now : ℕ) (k : Dispatch B) → Reaches now k → Sound now k
  unfolding add_behavior remove_behavior gc_behaviors update_security_context
  Reaches-Sound now k (starts _ _ r e) = record {
    reached = r;
    queued = λ m i. absurd (Memᴰ.not-nil (rw e at i));
  }
  Reaches-Sound now _ (receives _ msg k r) = recv-Sound now msg k (Reaches-Sound now k r)
  Reaches-Sound now _ (dispatches _ msg queue k r e) =
      let s = Reaches-Sound now k r in
      record {
        reached =
            dispatch-Reachable marshal unmarshal from_id trust now msg
              (record k { verified_queue = queue }) s.reached;
        queued = λ m i. s.queued m (
            rw e
              (Memᴰ.tail (rw (dispatch-queue now msg (record k { verified_queue = queue })) at i)));
      }
  Reaches-Sound now _ (finishes _ msg k r) =
      let s = Reaches-Sound now k r in record { reached = s.reached; queued = s.queued }
  Reaches-Sound now _ (adds _ behavior b k r) =
      let s = Reaches-Sound now k r in record { reached = s.reached; queued = s.queued }
  Reaches-Sound now _ (removes _ behavior k r) =
      let s = Reaches-Sound now k r in record { reached = s.reached; queued = s.queued }
  Reaches-Sound now _ (collects _ k r) =
      let s = Reaches-Sound now k r in record { reached = s.reached; queued = s.queued }
  Reaches-Sound now _ (capabilities _ cap k r step) =
      let s = Reaches-Sound now k r in
      record { reached = Reachable.calls now k.sctx.cap cap s.reached step; queued = s.queued }
  Reaches-Sound now _ (updates _ next k r reached) =
      let s = Reaches-Sound now k r in record { reached = reached; queued = s.queued }
  Reaches-Sound now _ (passes before _ k le r) =
      let s = Reaches-Sound before k r in
      record {
        reached = waits before now k.sctx.cap le s.reached;
        queued = λ m i.
            let c = s.queued m i in
            record { time = c.time; before = omega (arith, le, c.before); verified = c.verified };
      }
