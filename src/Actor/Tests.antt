-- ===== src/Actor/Tests.antt =====
-- A broadcast, a message to a public behaviour, and the default limits.
use device_management_servic.Common.{
  up, down, true, List, [], ◌∷◌, ok, ◌≡◌, refl, str_eq, has_prefix,
}
use device_management_servic.Common.Map.{lookup, insert, erase}
use device_management_servic.Ucan.Did.{empty_did, empty}
use device_management_servic.Actor.Message.{Handle, Envelope, empty_handle, is_broadcast_message}
use device_management_servic.Actor.Limiter.{
  default_config, new_rate_limiter, valid, is_public_behavior, allow, allow_topic, acquire,
  acquire_topic, acquire_public, release, release_topic,
}
use device_management_servic.Actor.Limiter.Laws.{allow-acquire}
use device_management_servic.Actor.Limiter.Counts.{SameCounts}
use device_management_servic.Actor.Limiter.Bounds.{Within, Event, acquires, releases, run}
use device_management_servic.Actor.Limiter.Runs.{run_new-Within, run-acquire-release}

abbrev nobody : Handle
nobody = record { id = ""; did = empty_did; address = record { host_id = ""; inbox_address = "" } }

abbrev news : Envelope
news = record {
  to = nobody;
  behavior = "/news";
  from = nobody;
  nonce = 1;
  expire = 1000;
  reply_to = "";
  topic = "/topic";
  message = "hello";
  capability = "";
  signature = "";
}

abbrev call : Envelope
call = record news { behavior = "/public/hello"; topic = "" }

abbrev events : List Event
events = acquires news ∷ acquires call ∷ releases news ∷ acquires news ∷ []

default-valid : valid default_config ≡ true
unfolding valid
default-valid = refl

news-allowed : allow (new_rate_limiter default_config) news ≡ true
unfolding allow allow_topic is_broadcast_message empty_handle empty str_eq lookup
news-allowed = refl

allow-acquire_example : (acquire (new_rate_limiter default_config) news).0 ≡ ok tt
allow-acquire_example =
    allow-acquire (new_rate_limiter default_config) news default-valid news-allowed

run_new-Within_example : Within (run (new_rate_limiter default_config) events)
run_new-Within_example = run_new-Within default_config events default-valid

news-acquired : (acquire (run (new_rate_limiter default_config) events) news).0 ≡ ok tt
unfolding acquire acquire_topic acquire_public release release_topic is_public_behavior has_prefix
    is_broadcast_message empty_handle empty str_eq lookup insert erase up down
news-acquired = refl

run-acquire-release_example :
    SameCounts
      (release (acquire (run (new_rate_limiter default_config) events) news).1 news)
      (run (new_rate_limiter default_config) events)
run-acquire-release_example = run-acquire-release default_config events news news-acquired
