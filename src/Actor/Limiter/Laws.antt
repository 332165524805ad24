-- ===== src/Actor/Limiter/Laws.antt =====
-- actor/limiter.go: how `Allow`, `Acquire` and `Release` fit together.
use device_management_servic.Common.{lt_int, lt_int_trans, true, false, ok, ◌≡◌, arith}
use device_management_servic.Actor.Message.{Envelope}
use device_management_servic.Actor.Limiter.{
  RateLimiterConfig, BasicRateLimiter, valid, allow, allow_public, allow_topic, acquire,
  acquire_public, acquire_topic,
}

record Ordered (cfg : RateLimiterConfig) : Type 0 where
  public_ordered : lt_int cfg.public_limit_acquire cfg.public_limit_allow ≡ false
  broadcast_ordered : lt_int cfg.broadcast_limit_acquire cfg.broadcast_limit_allow ≡ false

valid-Ordered : (cfg : RateLimiterConfig) → valid cfg ≡ true → Ordered cfg
unfolding valid
valid-Ordered cfg h = record { public_ordered = ground arith; broadcast_ordered = ground arith }

-- With a valid configuration, a message that `Allow` lets pass is one that `Acquire` accepts.
pub allow-acquire :
    (l : BasicRateLimiter) (msg : Envelope)
    → valid l.cfg ≡ true
    → allow l msg ≡ true
    → (acquire l msg).0 ≡ ok tt
unfolding allow acquire allow_topic acquire_topic allow_public acquire_public
allow-acquire l msg v h =
    let o = valid-Ordered l.cfg v in
    let p = lt_int_trans l.active_public l.cfg.public_limit_allow l.cfg.public_limit_acquire in
    let b =
      lt_int_trans l.active_broadcast l.cfg.broadcast_limit_allow l.cfg.broadcast_limit_acquire in
    ground (arith, p, b, o.public_ordered, o.broadcast_ordered)
