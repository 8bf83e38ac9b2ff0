-- ===== src/PubSub/Tests.antt =====
-- A client with two patterns, and three events.
use sbs_server.Prelude.{◌≡◌, ◌↔◌, refl, true, none, some, List, [], ◌∷◌, ◌++◌}
use sbs_server.Prelude.Bytes.{Bytes, codes, str_eq}
use sbs_server.PubSub.{Client, topic_matches_pattern, star_at, strncmp_eq, take_message}
use sbs_server.PubSub.Patterns.{Accepts, topic_matches_pattern-Accepts}
use sbs_server.PubSub.Delivery.{publish_all, Served, publish_all-Served}

abbrev viewer : Client
viewer = record {
  id = 1;
  subscriptions = codes "scene.*" ∷ codes "telemetry.cpu" ∷ [];
  outbox = codes "old" ∷ [];
  connection = 0;
  thread = 0;
  peer_ip = none;
  connected = true;
  authenticated = true;
}

abbrev topic_text : Bytes → Bytes → Bytes
topic_text topic event = topic ++ event

abbrev events : List (Bytes × Bytes)
events =
    (codes "scene.added", codes "!")
    ∷ (codes "source.added", codes "!")
    ∷ (codes "telemetry.cpu", codes "!")
    ∷ []

the_star : topic_matches_pattern (codes "scene.x") (codes "scene.*.y") ≡ true
unfolding topic_matches_pattern star_at strncmp_eq str_eq
the_star = refl

taken_first : (take_message viewer).0 ≡ some (codes "old")
unfolding take_message
taken_first = refl

topic_matches_pattern-Accepts_example :
    (topic_matches_pattern (codes "scene.x") (codes "scene.*") ≡ true)
    ↔ Accepts (codes "scene.*") (codes "scene.x")
topic_matches_pattern-Accepts_example =
    topic_matches_pattern-Accepts (codes "scene.x") (codes "scene.*")

publish_all-Served_example :
    Served topic_text events (viewer ∷ []) (publish_all topic_text true events (viewer ∷ []))
publish_all-Served_example = publish_all-Served topic_text true events (viewer ∷ [])
