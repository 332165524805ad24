-- ===== src/Actor/Limiter/Bounds.antt =====
-- actor/limiter.go: whatever is acquired and released, in any order, no limit is exceeded.
use device_management_servic.Common.{
  ℤ, pos, lt_int, up, down, lt_int-up, lt_int-down, String, false, some, Option-cases, Bool-cases,
  ◌≡◌, if◌then◌else◌, inl, inr, List, [], ◌∷◌,
}
use device_management_servic.Common.Map.{lookup}
use device_management_servic.Actor.Limiter.Counts.{Each-insert, Each-erase}
use device_management_servic.Actor.Message.{Envelope, is_broadcast_message}
use device_management_servic.Actor.Limiter.{
  BasicRateLimiter, is_public_behavior, active_in, limit_of, acquire, acquire_public, acquire_topic,
  release, release_public, release_topic,
}

-- No count is above its limit.
pub record Within (l : BasicRateLimiter) : Type 0 where
  pub public_within : lt_int l.cfg.public_limit_acquire l.active_public ≡ false
  pub broadcast_within : lt_int l.cfg.broadcast_limit_acquire l.active_broadcast ≡ false
  pub topics_within :
      (topic : String) (n : ℤ)
      → lookup topic l.active_topics ≡ some n
      → lt_int (limit_of l.cfg topic) n ≡ false

-- A call that the limiter sees.
pub data Event : Type 0 where
  acquires releases : Envelope → Event

abbrev pub run : BasicRateLimiter → List Event → BasicRateLimiter
run l [] = l
run l (acquires msg ∷ events) = run (acquire l msg).1 events
run l (releases msg ∷ events) = run (release l msg) events

acquire_topic-Within :
    (l : BasicRateLimiter) (topic : String) → Within l → Within (acquire_topic l topic).1
unfolding acquire_topic
acquire_topic-Within l topic w =
    elim (Bool-cases (lt_int l.active_broadcast l.cfg.broadcast_limit_acquire)) [
      | inr full ↦ rw (full, acquire_topic) w
      | inl room ↦ elim (Bool-cases (lt_int (active_in l topic) (limit_of l.cfg topic))) [
        | inr full ↦ rw (room, full, acquire_topic) w
        | inl below ↦
            rw (room, below, acquire_topic)
              (record {
                public_within = w.public_within;
                broadcast_within = lt_int-up l.active_broadcast l.cfg.broadcast_limit_acquire room;
                topics_within =
                    Each-insert (λ t v. lt_int (limit_of l.cfg t) v ≡ false) l.active_topics topic
                      (up (active_in l topic))
                      (lt_int-up (active_in l topic) (limit_of l.cfg topic) below) w.topics_within;
              })
      ]
    ]

release_topic-Within :
    (l : BasicRateLimiter) (topic : String) → Within l → Within (release_topic l topic)
unfolding release_topic
release_topic-Within l topic w = elim (Option-cases (lookup topic l.active_topics)) [
  | inl gone ↦ rw (gone, release_topic) w
  | inr (n, found) ↦
      let fits = lt_int-down n (limit_of l.cfg topic) (w.topics_within topic n found) in
      rw (found, release_topic)
        (record {
          public_within = w.public_within;
          broadcast_within =
              lt_int-down l.active_broadcast l.cfg.broadcast_limit_acquire w.broadcast_within;
          topics_within = elim (Bool-cases (lt_int (pos 0) (down n))) [
            | inl some_left ↦
                rw (some_left, if◌then◌else◌)
                  (Each-insert (λ t v. lt_int (limit_of l.cfg t) v ≡ false) l.active_topics topic
                    (down n) fits w.topics_within)
            | inr none_left ↦
                rw (none_left, if◌then◌else◌)
                  (Each-erase (λ t v. lt_int (limit_of l.cfg t) v ≡ false) l.active_topics topic
                    w.topics_within)
          ];
        })
]

acquire_public-Within : (l : BasicRateLimiter) → Within l → Within (acquire_public l).1
unfolding acquire_public
acquire_public-Within l w = elim (Bool-cases (lt_int l.active_public l.cfg.public_limit_acquire)) [
  | inr full ↦ rw (full, acquire_public) w
  | inl room ↦
      rw (room, acquire_public)
        (record {
          public_within = lt_int-up l.active_public l.cfg.public_limit_acquire room;
          broadcast_within = w.broadcast_within;
          topics_within = w.topics_within;
        })
]

acquire-Within : (l : BasicRateLimiter) (msg : Envelope) → Within l → Within (acquire l msg).1
unfolding acquire
acquire-Within l msg w = elim (Bool-cases (is_broadcast_message msg)) [
  | inl b ↦ rw (b, acquire) (acquire_topic-Within l msg.topic w)
  | inr b ↦ elim (Bool-cases (is_public_behavior msg)) [
    | inl p ↦ rw (b, p, acquire) (acquire_public-Within l w)
    | inr p ↦ rw (b, p, acquire) w
  ]
]

release-Within : (l : BasicRateLimiter) (msg : Envelope) → Within l → Within (release l msg)
unfolding release release_public
release-Within l msg w = elim (Bool-cases (is_broadcast_message msg)) [
  | inl b ↦ rw (b, release) (release_topic-Within l msg.topic w)
  | inr b ↦ elim (Bool-cases (is_public_behavior msg)) [
    | inl p ↦
        rw (b, p, release)
          (record {
            public_within = lt_int-down l.active_public l.cfg.public_limit_acquire w.public_within;
            broadcast_within = w.broadcast_within;
            topics_within = w.topics_within;
          })
    | inr p ↦ rw (b, p, release) w
  ]
]

-- Acquiring and releasing, in any order and matched or not, never brings a count above its limit.
pub run-Within : (l : BasicRateLimiter) (events : List Event) → Within l → Within (run l events)
run-Within l [] w = w
run-Within l (acquires msg ∷ events) w =
    run-Within (acquire l msg).1 events (acquire-Within l msg w)
run-Within l (releases msg ∷ events) w = run-Within (release l msg) events (release-Within l msg w)
