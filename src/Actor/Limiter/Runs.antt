-- ===== src/Actor/Limiter/Runs.antt =====
-- actor/limiter.go: every limiter that starts from a valid configuration.
use device_management_servic.Common.{
  ℤ, pos, negsuc, lt_int, up, down, up-positive, String, true, false, Option-cases, Bool-cases, ok,
  ◌≡◌, refl, arith, inl, inr, List, [], ◌∷◌,
}
use device_management_servic.Common.Map.{Map, lookup}
use device_management_servic.Actor.Message.{Envelope, is_broadcast_message}
use device_management_servic.Actor.Limiter.{
  RateLimiterConfig, BasicRateLimiter, new_rate_limiter, valid, is_public_behavior, or_zero,
  active_in, limit_of, acquire, acquire_public, acquire_topic, release, release_public,
  release_topic,
}
use device_management_servic.Actor.Limiter.Counts.{
  Each-insert, Each-erase, Positive, SameCounts, acquire-release,
}
use device_management_servic.Actor.Limiter.Bounds.{
  Within, Event, acquires, releases, run, run-Within,
}

count_up :
    (m : Map ℤ) (topic : String)
    → Positive m
    → lt_int (pos 0) (up (or_zero (lookup topic m))) ≡ true
unfolding up
count_up m topic w = elim (Option-cases (lookup topic m)) [
  | inl p ↦ rw p refl
  | inr (v, p) ↦ rw p (up-positive v (w topic v p))
]

acquire_topic-Positive :
    (l : BasicRateLimiter) (topic : String)
    → Positive l.active_topics
    → Positive (acquire_topic l topic).1.active_topics
unfolding acquire_topic
acquire_topic-Positive l topic w =
    elim (Bool-cases (lt_int l.active_broadcast l.cfg.broadcast_limit_acquire)) [
      | inr full ↦ rw (full, acquire_topic) w
      | inl room ↦ elim (Bool-cases (lt_int (active_in l topic) (limit_of l.cfg topic))) [
        | inr full ↦ rw (room, full, acquire_topic) w
        | inl below ↦
            rw (room, below, acquire_topic)
              (Each-insert (λ t n. lt_int (pos 0) n ≡ true) l.active_topics topic
                (up (active_in l topic)) (count_up l.active_topics topic w) w)
      ]
    ]

release_topic-Positive :
    (l : BasicRateLimiter) (topic : String)
    → Positive l.active_topics
    → Positive (release_topic l topic).active_topics
unfolding release_topic
release_topic-Positive l topic w = elim (Option-cases (lookup topic l.active_topics)) [
  | inl gone ↦ rw (gone, release_topic) w
  | inr (n, found) ↦ elim (Bool-cases (lt_int (pos 0) (down n))) [
    | inl left ↦
        rw (found, left, release_topic)
          (Each-insert (λ t n. lt_int (pos 0) n ≡ true) l.active_topics topic (down n) left w)
    | inr left ↦
        rw (found, left, release_topic)
          (Each-erase (λ t n. lt_int (pos 0) n ≡ true) l.active_topics topic w)
  ]
]

acquire-Positive :
    (l : BasicRateLimiter) (msg : Envelope)
    → Positive l.active_topics
    → Positive (acquire l msg).1.active_topics
unfolding acquire acquire_public
acquire-Positive l msg w = elim (Bool-cases (is_broadcast_message msg)) [
  | inl b ↦ rw (b, acquire) (acquire_topic-Positive l msg.topic w)
  | inr b ↦ elim (Bool-cases (is_public_behavior msg)) [
    | inr p ↦ rw (b, p, acquire) w
    | inl p ↦ elim (Bool-cases (lt_int l.active_public l.cfg.public_limit_acquire)) [
      | inl room ↦ rw (b, p, room, acquire, acquire_public) w
      | inr full ↦ rw (b, p, full, acquire, acquire_public) w
    ]
  ]
]

release-Positive :
    (l : BasicRateLimiter) (msg : Envelope)
    → Positive l.active_topics
    → Positive (release l msg).active_topics
unfolding release release_public
release-Positive l msg w = elim (Bool-cases (is_broadcast_message msg)) [
  | inl b ↦ rw (b, release) (release_topic-Positive l msg.topic w)
  | inr b ↦ elim (Bool-cases (is_public_behavior msg)) [
    | inl p ↦ rw (b, p, release) w
    | inr p ↦ rw (b, p, release) w
  ]
]

run-Positive :
    (l : BasicRateLimiter) (events : List Event)
    → Positive l.active_topics
    → Positive (run l events).active_topics
run-Positive l [] w = w
run-Positive l (acquires msg ∷ events) w =
    run-Positive (acquire l msg).1 events (acquire-Positive l msg w)
run-Positive l (releases msg ∷ events) w =
    run-Positive (release l msg) events (release-Positive l msg w)

not_negative : (a b : ℤ) → lt_int (pos 0) b ≡ true → lt_int a b ≡ false → lt_int a (pos 0) ≡ false
not_negative (pos a) b h k = ground arith
not_negative (negsuc a) (pos b) h k = cc
not_negative (negsuc a) (negsuc b) h k = cc

new-Within : (cfg : RateLimiterConfig) → valid cfg ≡ true → Within (new_rate_limiter cfg)
unfolding valid lookup
new-Within cfg v = record {
  public_within =
      not_negative cfg.public_limit_acquire cfg.public_limit_allow (ground arith) (ground arith);
  broadcast_within =
      not_negative cfg.broadcast_limit_acquire cfg.broadcast_limit_allow (ground arith)
        (ground arith);
  topics_within = λ t n h. cc;
}

-- Whatever is acquired and released, in any order and matched or not, a limiter that starts from a
-- valid configuration exceeds no limit.
pub run_new-Within :
    (cfg : RateLimiterConfig) (events : List Event)
    → valid cfg ≡ true
    → Within (run (new_rate_limiter cfg) events)
run_new-Within cfg events v = run-Within (new_rate_limiter cfg) events (new-Within cfg v)

-- After any calls, what is acquired and then released leaves the counts as they were.
pub run-acquire-release :
    (cfg : RateLimiterConfig) (events : List Event) (msg : Envelope)
    → (acquire (run (new_rate_limiter cfg) events) msg).0 ≡ ok tt
    → SameCounts
        (release (acquire (run (new_rate_limiter cfg) events) msg).1 msg)
        (run (new_rate_limiter cfg) events)
unfolding lookup
run-acquire-release cfg events msg h =
    acquire-release (run (new_rate_limiter cfg) events) msg
      (run-Positive (new_rate_limiter cfg) events (λ t n k. cc)) h
