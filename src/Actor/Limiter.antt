-- ===== src/Actor/Limiter.antt =====
-- actor/limiter.go: the limits on public messages and on broadcasts.
-- A Go `int` is a whole number: the counters stay far below 2 ^ 63, since each step adds one at most.
pub mod Laws
pub mod Counts
pub mod Bounds
pub mod Runs
use device_management_servic.Common.{
  ℤ, pos, lt_int, up, down, String, Bool, true, false, ◌&&◌, not, Option, none, some, [], Result,
  ok, err, rate_limit_exceeded, if◌then◌else◌, has_prefix,
}
use device_management_servic.Common.Map.{Map, lookup, insert, erase}
use device_management_servic.Actor.Message.{Envelope, is_broadcast_message}

pub record RateLimiterConfig : Type 0 where
  pub public_limit_allow : ℤ
  pub public_limit_acquire : ℤ
  pub broadcast_limit_allow : ℤ
  pub broadcast_limit_acquire : ℤ
  pub topic_default_limit : ℤ
  pub topic_limit : Map ℤ

pub record BasicRateLimiter : Type 0 where
  pub cfg : RateLimiterConfig
  pub active_broadcast : ℤ
  pub active_topics : Map ℤ
  pub active_public : ℤ

-- `Valid`
unfoldable pub valid : RateLimiterConfig → Bool
valid cfg =
    lt_int (pos 0) cfg.public_limit_allow
    && not (lt_int cfg.public_limit_acquire cfg.public_limit_allow)
    && lt_int (pos 0) cfg.broadcast_limit_allow
    && not (lt_int cfg.broadcast_limit_acquire cfg.broadcast_limit_allow)
    && lt_int (pos 0) cfg.topic_default_limit

-- `DefaultRateLimiterConfig`
abbrev pub default_config : RateLimiterConfig
default_config = record {
  public_limit_allow = pos 4096;
  public_limit_acquire = pos 4112;
  broadcast_limit_allow = pos 1024;
  broadcast_limit_acquire = pos 1040;
  topic_default_limit = pos 128;
  topic_limit = [];
}

-- `NewRateLimiter`
abbrev pub new_rate_limiter : RateLimiterConfig → BasicRateLimiter
new_rate_limiter c = record {
  cfg = c;
  active_broadcast = pos 0;
  active_topics = [];
  active_public = pos 0;
}

-- `isPublicBehavior`
unfoldable pub is_public_behavior : Envelope → Bool
is_public_behavior msg = has_prefix msg.behavior "/public/"

-- A missing count reads as zero.
abbrev pub or_zero : Option ℤ → ℤ
or_zero none = pos 0
or_zero (some n) = n

-- `l.activeTopics[topic]`
abbrev pub active_in : BasicRateLimiter → String → ℤ
active_in l topic = or_zero (lookup topic l.active_topics)

-- The limit of a topic: its own, or the default.
abbrev pub limit_of : RateLimiterConfig → String → ℤ
limit_of cfg topic = elim (lookup topic cfg.topic_limit) [
  | none ↦ cfg.topic_default_limit
  | some n ↦ n
]

unfoldable pub allow_public : BasicRateLimiter → Bool
allow_public l = lt_int l.active_public l.cfg.public_limit_allow

-- `allowBroadcast`
unfoldable pub allow_topic : BasicRateLimiter → String → Bool
allow_topic l topic =
    if not (lt_int l.active_broadcast l.cfg.broadcast_limit_allow)
    then false
    else lt_int (active_in l topic) (limit_of l.cfg topic)

-- `Allow`
unfoldable pub allow : BasicRateLimiter → Envelope → Bool
allow l msg =
    if is_broadcast_message msg
    then allow_topic l msg.topic
    else if is_public_behavior msg
    then allow_public l
    else true

unfoldable pub acquire_public : BasicRateLimiter → Result (Unit {0}) × BasicRateLimiter
acquire_public l =
    if not (lt_int l.active_public l.cfg.public_limit_acquire)
    then (err rate_limit_exceeded, l)
    else (ok tt, record l { active_public = up l.active_public })

-- `acquireBroadcast`
unfoldable pub acquire_topic : BasicRateLimiter → String → Result (Unit {0}) × BasicRateLimiter
acquire_topic l topic =
    if not (lt_int l.active_broadcast l.cfg.broadcast_limit_acquire)
    then (err rate_limit_exceeded, l)
    else if not (lt_int (active_in l topic) (limit_of l.cfg topic))
    then (err rate_limit_exceeded, l)
    else (
      ok tt,
      record l {
        active_topics = insert topic (up (active_in l topic)) l.active_topics;
        active_broadcast = up l.active_broadcast;
      },
    )

-- `Acquire`
unfoldable pub acquire : BasicRateLimiter → Envelope → Result (Unit {0}) × BasicRateLimiter
acquire l msg =
    if is_broadcast_message msg
    then acquire_topic l msg.topic
    else if is_public_behavior msg
    then acquire_public l
    else (ok tt, l)

unfoldable pub release_public : BasicRateLimiter → BasicRateLimiter
release_public l = record l { active_public = down l.active_public }

-- `releaseBroadcast`
unfoldable pub release_topic : BasicRateLimiter → String → BasicRateLimiter
release_topic l topic = elim (lookup topic l.active_topics) [
  | none ↦ l
  | some active ↦ record l {
    active_topics =
        if lt_int (pos 0) (down active)
        then insert topic (down active) l.active_topics
        else erase topic l.active_topics;
    active_broadcast = down l.active_broadcast;
  }
]

-- `Release`
unfoldable pub release : BasicRateLimiter → Envelope → BasicRateLimiter
release l msg =
    if is_broadcast_message msg
    then release_topic l msg.topic
    else if is_public_behavior msg
    then release_public l
    else l

-- `SetConfig`
abbrev pub set_config : BasicRateLimiter → RateLimiterConfig → BasicRateLimiter
set_config l c = record l { cfg = c }
