-- ===== src/Startup/Lifespan.antt =====
-- main.py: what a start promises, and what the end of the service closes.
use auth_profile_service.Common.{String, ◌≡◌, ◌⊎◌, true, false, some, List, Has}
use auth_profile_service.Auth.Errors.{Error, Result, ok, err, ◌>>=◌}
use auth_profile_service.Security.Settings.{Settings}
use auth_profile_service.Startup.{
  ClientCall, Task, Consumer, NewTopic, Admin, App, topics_to_create, new_topics, ensure_topics,
}

-- What Kafka documents of creating topics: after a call that returned, there is every topic that it asked
-- for.
pub record AdminLaws (admin : Admin) : Type 0 where
  pub creates :
      (wanted : List NewTopic) (existing : List String) (t : NewTopic)
      → (admin.create_topics wanted existing).0 ≡ ok tt
      → Has t wanted
      → Has t.name (admin.create_topics wanted existing).1

-- The consumer after its start.
abbrev pub opened : Consumer → Consumer
opened c = record c { is_open = true; task = some Task.running }

-- The topics were not made: the client of the administration did not start, or creating them raised.
abbrev pub IsNotMade : Settings → Admin → (topics : List String) → Type 0
IsNotMade s admin topics =
    (admin.starts ≡ false)
    ⊎ ((e : Error) × ((admin.create_topics (new_topics (topics_to_create s)) topics).0 ≡ err e))

-- What a consumer listens to: a topic that is there, or one of the wallet or of the games.
abbrev pub HasTopic : Settings → List String → Consumer → Type 0
HasTopic s topics c =
    Has c.topic topics
    ⊎ ((c.topic ≡ s.kafka_topic_wallet_events) ⊎ (c.topic ≡ s.kafka_topic_game_events))

module _ (answers : ClientCall → Result (Unit {0})) where
  -- The process after a start with Kafka.
  abbrev started : Settings → Admin → List String → List Consumer → App
  started s admin topics consumers = record {
    publisher_open = true;
    dispatcher = some Task.running;
    topics = ensure_topics s admin topics;
    consumers = consumers;
    presence_open = true;
    blacklist_open = true;
    engine_open = true;
  }
