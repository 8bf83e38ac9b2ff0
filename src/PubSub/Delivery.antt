-- ===== src/PubSub/Delivery.antt =====
-- The outboxes of clients after a sequence of published events.
use sbs_server.Prelude.{
  ◌≡◌, refl, ◌↔◌, ◌⊎◌, true, arith, Bool, some, List, [], ◌∷◌, ◌++◌, if◌then◌else◌, Bool-cases, inl,
  inr,
}
use sbs_server.Prelude.Bytes.{Bytes}
use sbs_server.PubSub.Patterns.{Accepts, topic_matches_pattern-Accepts}
use sbs_server.PubSub.{
  topic_matches_pattern, Client, any_matches, client_matches_topic, deliver, publish,
}
use mathlib.Core.List.{append_assoc, append-nil}
use mathlib.Core.Path.{ap, subst, sym, ◌∙◌}

-- One of the patterns accepts the topic.
abbrev pub SomeAccepts : List Bytes → Bytes → Type 0
SomeAccepts [] topic = ⊥
SomeAccepts (p ∷ ps) topic = Accepts p topic ⊎ SomeAccepts ps topic

any_matches-SomeAccepts :
    (ps : List Bytes) (topic : Bytes) → (any_matches ps topic ≡ true) ↔ SomeAccepts ps topic
unfolding any_matches
any_matches-SomeAccepts [] topic = (λ h. absurd (ground (arith, h)), λ a. elim a [ ])
any_matches-SomeAccepts (p ∷ ps) topic = elim (Bool-cases (topic_matches_pattern topic p)) [
  | inl hit ↦ (λ h. inl ((topic_matches_pattern-Accepts topic p).0 hit), λ a. rw hit refl)
  | inr miss ↦ (
    λ h. inr ((any_matches-SomeAccepts ps topic).0 (ground (arith, h, miss))),
    λ a. elim a [
      | inl here ↦ absurd (ground (arith, miss, (topic_matches_pattern-Accepts topic p).1 here))
      | inr later ↦ rw miss ((any_matches-SomeAccepts ps topic).1 later)
    ],
  )
]

module _ {ℓ} {Json : Type ℓ} (render : Bytes → Json → Bytes) where
  -- Events published one after another.
  unfoldable pub publish_all : Bool → List (Bytes × Json) → List Client → List Client
  publish_all has_config [] cs = cs
  publish_all has_config ((topic, event) ∷ es) cs =
      publish_all has_config es (publish render has_config (some topic) (some event) cs).1

  -- The texts of the events that the client's test lets through.
  unfoldable pub wanted : List Bytes → List (Bytes × Json) → List Bytes
  wanted subscriptions [] = []
  wanted subscriptions ((topic, event) ∷ es) =
      let rest = wanted subscriptions es in
      if any_matches subscriptions topic then render topic event ∷ rest else rest

  abbrev served : List (Bytes × Json) → Client → Client
  served es c = record c { outbox = c.outbox ++ wanted c.subscriptions es }

  unfoldable pub serve_all : List (Bytes × Json) → List Client → List Client
  serve_all es [] = []
  serve_all es (c ∷ cs) = served es c ∷ serve_all es cs

  serve-nil : (cs : List Client) → serve_all [] cs ≡ cs
  unfolding serve_all wanted
  serve-nil [] = refl
  serve-nil (c ∷ cs) = rw (append-nil c.outbox, serve-nil cs) refl

  -- A client before the rest of the events.
  served_next :
      (topic : Bytes) (event : Json) (es : List (Bytes × Json)) (c : Client)
      → served es (
          if client_matches_topic c topic
          then record c { outbox = c.outbox ++ render topic event ∷ [] }
          else c)
        ≡ served ((topic, event) ∷ es) c
  unfolding wanted
  served_next topic event es c = elim (Bool-cases (any_matches c.subscriptions topic)) [
    | inl hit ↦ rw hit (
        ap (λ o. record c { outbox = o })
          (append_assoc c.outbox (render topic event ∷ []) (wanted c.subscriptions es)))
    | inr miss ↦ rw miss refl
  ]

  serve-deliver :
      (topic : Bytes) (event : Json) (es : List (Bytes × Json)) (cs : List Client)
      → serve_all es (deliver topic (render topic event) cs) ≡ serve_all ((topic, event) ∷ es) cs
  unfolding serve_all deliver
  serve-deliver topic event es [] = refl
  serve-deliver topic event es (c ∷ cs) =
      rw (served_next topic event es c, serve-deliver topic event es cs) refl

  -- The same with the loop's own test.
  published_lem :
      (has_config : Bool) (es : List (Bytes × Json)) (cs : List Client)
      → publish_all has_config es cs ≡ serve_all es cs
  unfolding publish_all publish
  published_lem has_config [] cs = sym (serve-nil cs)
  published_lem has_config ((topic, event) ∷ es) cs =
      published_lem has_config es (deliver topic (render topic event) cs)
      ∙ serve-deliver topic event es cs

  -- The texts, in order, of just those events whose topic one of the patterns accepts.
  pub data Wanted (patterns : List Bytes) : List (Bytes × Json) → List Bytes → Type ℓ where
    no_events : Wanted patterns [] []
    takes :
        (topic : Bytes) (event : Json) (es : List (Bytes × Json)) (texts : List Bytes)
        → SomeAccepts patterns topic
        → Wanted patterns es texts
        → Wanted patterns ((topic, event) ∷ es) (render topic event ∷ texts)
    passes :
        (topic : Bytes) (event : Json) (es : List (Bytes × Json)) (texts : List Bytes)
        → ¬ (SomeAccepts patterns topic)
        → Wanted patterns es texts
        → Wanted patterns ((topic, event) ∷ es) texts

  wanted-Wanted : (ps : List Bytes) (es : List (Bytes × Json)) → Wanted ps es (wanted ps es)
  unfolding wanted
  wanted-Wanted ps [] = no_events
  wanted-Wanted ps ((topic, event) ∷ es) = elim (Bool-cases (any_matches ps topic)) [
    | inl hit ↦ rw hit (
        takes topic event es (wanted ps es) ((any_matches-SomeAccepts ps topic).0 hit)
          (wanted-Wanted ps es))
    | inr miss ↦ rw miss (
        passes topic event es (wanted ps es)
          (λ a. absurd (ground (arith, miss, (any_matches-SomeAccepts ps topic).1 a)))
          (wanted-Wanted ps es))
  ]

  -- The same clients, in the same order and with nothing changed but the outbox, which has got longer
  -- by the texts wanted.
  pub data Served (es : List (Bytes × Json)) : List Client → List Client → Type ℓ where
    nobody : Served es [] []
    client :
        (c : Client) (cs cs' : List Client) (texts : List Bytes)
        → Wanted c.subscriptions es texts
        → Served es cs cs'
        → Served es (c ∷ cs) (record c { outbox = c.outbox ++ texts } ∷ cs')

  serve_all-Served : (es : List (Bytes × Json)) (cs : List Client) → Served es cs (serve_all es cs)
  unfolding serve_all
  serve_all-Served es [] = nobody
  serve_all-Served es (c ∷ cs) =
      client c cs (serve_all es cs) (wanted c.subscriptions es) (wanted-Wanted c.subscriptions es)
        (serve_all-Served es cs)

  -- After any sequence of published events the clients are the same but for their outboxes, and each
  -- outbox has, after what was in it, the texts of exactly those events whose topic a pattern among
  -- all the client's subscriptions accepts, in the order published. A pattern accepts itself, and with
  -- a star what starts as it does before its first star.
  pub publish_all-Served :
      (has_config : Bool) (es : List (Bytes × Json)) (cs : List Client)
      → Served es cs (publish_all has_config es cs)
  publish_all-Served has_config es cs =
      subst (λ cs'. Served es cs cs') (sym (published_lem has_config es cs))
        (serve_all-Served es cs)
