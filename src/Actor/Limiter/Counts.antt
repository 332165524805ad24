-- ===== src/Actor/Limiter/Counts.antt =====
-- actor/limiter.go: a property of the stored counts, and what is released after it was acquired.
use device_management_servic.Common.{
  ℤ, pos, lt_int, up, down-up, String, true, false, some, Option-cases, Bool-cases, ok, ◌≡◌, refl,
  arith, ap, sym, subst, ◌∙◌, if◌then◌else◌, inl, inr, str_eq, str_eq_iff,
}
use device_management_servic.Common.Map.{Map, lookup, insert, erase, lookup-insert, lookup-erase}
use device_management_servic.Actor.Message.{Envelope, is_broadcast_message}
use device_management_servic.Actor.Limiter.{
  BasicRateLimiter, is_public_behavior, or_zero, active_in, limit_of, acquire, acquire_public,
  acquire_topic, release, release_public, release_topic,
}

module _ (P : String → ℤ → Type 0) where
  -- Each stored count has the property.
  abbrev pub Each : Map ℤ → Type 0
  Each m = (t : String) (n : ℤ) → lookup t m ≡ some n → P t n

  pub Each-insert :
      (m : Map ℤ) (topic : String) (v : ℤ) → P topic v → Each m → Each (insert topic v m)
  Each-insert m topic v fits old t n h = elim (Bool-cases (str_eq topic t)) [
    | inl same ↦
        let found : some v ≡ some n =
          rw (same, if◌then◌else◌) at (sym (lookup-insert topic t v m) ∙ h) in
        let e = (str_eq_iff topic t).0 same in
        let f : v ≡ n = cc in subst (λ x. P x n) e (subst (λ x. P topic x) f fits)
    | inr other ↦ old t n (rw (other, if◌then◌else◌) at (sym (lookup-insert topic t v m) ∙ h))
  ]

  pub Each-erase : (m : Map ℤ) (topic : String) → Each m → Each (erase topic m)
  Each-erase m topic old t n h = elim (Bool-cases (str_eq topic t)) [
    | inl same ↦ cc (rw (same, if◌then◌else◌) at (sym (lookup-erase topic t m) ∙ h))
    | inr other ↦ old t n (rw (other, if◌then◌else◌) at (sym (lookup-erase topic t m) ∙ h))
  ]

-- Every stored count is positive.
abbrev pub Positive : Map ℤ → Type 0
Positive m = Each (λ t n. lt_int (pos 0) n ≡ true) m

-- The same counts.
pub record SameCounts (l k : BasicRateLimiter) : Type 0 where
  pub same_public : l.active_public ≡ k.active_public
  pub same_broadcast : l.active_broadcast ≡ k.active_broadcast
  pub same_topics : (t : String) → lookup t l.active_topics ≡ lookup t k.active_topics

-- Taking back the last count of a topic.
taken_back :
    (m : Map ℤ) (topic : String) (a : ℤ)
    → a ≡ or_zero (lookup topic m)
    → Positive m
    → (t : String)
    → lookup t (
        if lt_int (pos 0) a
        then insert topic a (insert topic (up a) m)
        else erase topic (insert topic (up a) m))
      ≡ lookup t m
taken_back m topic a e w t = elim (Option-cases (lookup topic m)) [
  | inl p ↦
      let zero : a ≡ pos 0 = e ∙ ap or_zero p in
      let flat : lt_int (pos 0) a ≡ false = ap (λ x. lt_int (pos 0) x) zero in
      rw (flat, if◌then◌else◌)
        (ground (
          arith,
          lookup-erase topic t (insert topic (up a) m),
          lookup-insert topic t (up a) m,
          str_eq_iff topic t,
        ))
  | inr (v, p) ↦
      let same : a ≡ v = e ∙ ap or_zero p in
      let high : lt_int (pos 0) a ≡ true = ap (λ x. lt_int (pos 0) x) same ∙ w topic v p in
      rw (high, if◌then◌else◌)
        (ground (
          arith,
          lookup-insert topic t a (insert topic (up a) m),
          lookup-insert topic t (up a) m,
          str_eq_iff topic t,
        ))
]

acquire_topic-release :
    (l : BasicRateLimiter) (topic : String)
    → Positive l.active_topics
    → (acquire_topic l topic).0 ≡ ok tt
    → SameCounts (release_topic (acquire_topic l topic).1 topic) l
unfolding acquire_topic release_topic
acquire_topic-release l topic w h =
    elim (Bool-cases (lt_int l.active_broadcast l.cfg.broadcast_limit_acquire)) [
      | inr full ↦ cc (rw (full, acquire_topic) at h)
      | inl room ↦ elim (Bool-cases (lt_int (active_in l topic) (limit_of l.cfg topic))) [
        | inr full ↦ cc (rw (room, full, acquire_topic) at h)
        | inl below ↦
            let stored : lookup topic (insert topic (up (active_in l topic)) l.active_topics)
                ≡ some (up (active_in l topic)) =
              ground (
                arith,
                lookup-insert topic topic (up (active_in l topic)) l.active_topics,
                str_eq_iff topic topic,
              ) in
            rw (room, below, acquire_topic)
              (rw (stored, release_topic)
                (rw (down-up (active_in l topic)) (record {
                  same_public = refl;
                  same_broadcast = down-up l.active_broadcast;
                  same_topics = taken_back l.active_topics topic (active_in l topic) refl w;
                })))
      ]
    ]

acquire_public-release :
    (l : BasicRateLimiter)
    → (acquire_public l).0 ≡ ok tt
    → SameCounts (release_public (acquire_public l).1) l
unfolding acquire_public release_public
acquire_public-release l h = elim (Bool-cases (lt_int l.active_public l.cfg.public_limit_acquire)) [
  | inr full ↦ cc (rw (full, acquire_public) at h)
  | inl room ↦
      rw (room, acquire_public)
        (record {
          same_public = down-up l.active_public;
          same_broadcast = refl;
          same_topics = λ t. refl;
        })
]

-- If every stored count is positive and a message is acquired, releasing it gives the counts back.
pub acquire-release :
    (l : BasicRateLimiter) (msg : Envelope)
    → Positive l.active_topics
    → (acquire l msg).0 ≡ ok tt
    → SameCounts (release (acquire l msg).1 msg) l
unfolding acquire release
acquire-release l msg w h = elim (Bool-cases (is_broadcast_message msg)) [
  | inl b ↦ rw (b, acquire, release) (acquire_topic-release l msg.topic w (rw (b, acquire) at h))
  | inr b ↦ elim (Bool-cases (is_public_behavior msg)) [
    | inl p ↦ rw (b, p, acquire, release) (acquire_public-release l (rw (b, p, acquire) at h))
    | inr p ↦
        rw (b, p, acquire, release)
          (record { same_public = refl; same_broadcast = refl; same_topics = λ t. refl })
  ]
]
