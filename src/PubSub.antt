-- ===== src/PubSub.antt =====
-- src/server/api/pubsub.c: topics, patterns and the delivery of events to the clients' outboxes.
pub mod Patterns
pub mod Delivery
mod Tests
use sbs_server.Prelude.{
  ℕ, zero, suc, Bool, true, false, not, ◌&&◌, Option, none, some, List, [], ◌∷◌, ◌++◌,
  if◌then◌else◌, ◌==◌, length,
}
use sbs_server.Prelude.Bytes.{Bytes, codes, str_eq}

-- `strncmp(a, b, n) == 0`
unfoldable pub strncmp_eq : ℕ → Bytes → Bytes → Bool
strncmp_eq zero a b = true
strncmp_eq (suc n) [] [] = true
strncmp_eq (suc n) [] (y ∷ b) = false
strncmp_eq (suc n) (x ∷ a) [] = false
strncmp_eq (suc n) (x ∷ a) (y ∷ b) = let rest = strncmp_eq n a b in if x == y then rest else false

-- `strchr(s, '*') - s`, if there is one.
unfoldable pub star_at : Bytes → Option ℕ
star_at [] = none
star_at (c ∷ s) =
    let rest = star_at s in
    if c == b'*' then some 0 else elim rest [ none ↦ none | some n ↦ some (suc n) ]

-- `topic_matches_pattern`; neither is NULL.
unfoldable pub topic_matches_pattern : Bytes → Bytes → Bool
topic_matches_pattern topic pattern =
    if str_eq pattern (codes "*") then true else elim (star_at pattern) [
      | none ↦ str_eq topic pattern
      | some n ↦ strncmp_eq n topic pattern
    ]

-- `sbs_api_client_t`
pub record Client : Type 0 where
  pub id : ℕ
  pub subscriptions : List Bytes
  pub outbox : List Bytes
  pub connection : ℕ
  pub thread : ℕ
  pub peer_ip : Option Bytes
  pub connected : Bool
  pub authenticated : Bool

-- The loop of `sbs_api_client_matches_topic`.
unfoldable pub any_matches : List Bytes → Bytes → Bool
any_matches [] topic = false
any_matches (p ∷ ps) topic =
    let rest = any_matches ps topic in if topic_matches_pattern topic p then true else rest

-- `sbs_api_client_matches_topic`
abbrev pub client_matches_topic : Client → Bytes → Bool
client_matches_topic c topic = any_matches c.subscriptions topic

-- `sbs_api_client_take_message`
unfoldable pub take_message : Client → Option Bytes × Client
take_message c = elim c.outbox [ [] ↦ (none, c) | m ∷ ms ↦ (some m, record c { outbox = ms }) ]

-- `g_str_has_prefix`
abbrev has_prefix : Bytes → Bytes → Bool
has_prefix s prefix = strncmp_eq (length prefix) s prefix

-- Whether an event makes the configuration dirty, if there is a configuration.
unfoldable pub marks_dirty : Bytes → Bool
marks_dirty topic =
    not (has_prefix topic (codes "telemetry."))
    && (not (has_prefix topic (codes "audio.level"))
        && not (has_prefix topic (codes "preview.profile.")))

-- The loop of `sbs_api_server_publish`.
unfoldable pub deliver : Bytes → Bytes → List Client → List Client
deliver topic json [] = []
deliver topic json (c ∷ cs) =
    (if client_matches_topic c topic then record c { outbox = c.outbox ++ json ∷ [] } else c)
    ∷ deliver topic json cs

-- The text of an event is made by libcjson from its topic and its data.
module _ {ℓ} {Json : Type ℓ} (render : Bytes → Json → Bytes) where
  -- `sbs_api_server_publish`: whether the configuration is marked dirty, and the clients afterwards.
  unfoldable pub publish : Bool → Option Bytes → Option Json → List Client → Bool × List Client
  unfolding marks_dirty deliver
  publish has_config (some topic) (some event) clients =
      (has_config && marks_dirty topic, deliver topic (render topic event) clients)
  publish has_config _ _ clients = (false, clients)
