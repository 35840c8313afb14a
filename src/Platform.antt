-- ===== src/Platform.antt =====
-- The parts of app that run side by side on one state, as app/main.py composes them: the use cases,
-- the relay of infrastructure/messaging/outbox_dispatcher.py, and the consumer of user events with
-- its committed offset.
pub mod Writes
pub mod Announced
pub mod UseCases
pub mod Handler
pub mod Consumed
pub mod Relay
pub mod Consistent
pub mod Registrations
pub mod Arrival
pub mod Settled
use auth_profile_service.Common.{ℕ, String, Option, some, List, [], ◌∷◌, ◌==◌, map, select, drop}
use auth_profile_service.Json.{Json}
use auth_profile_service.Database.World.{Published, World, Draw}
use auth_profile_service.Security.Settings.{Settings}
use auth_profile_service.Security.Passwords.{Hasher}
use auth_profile_service.Security.Jwt.{Jwt}
use auth_profile_service.Accounts.Integrity.{UseCase, perform}
use auth_profile_service.Messaging.Outbox.{Fate, publish, dispatch_batch}
use auth_profile_service.Messaging.Consumers.{handle_user_events}
use auth_profile_service.Messaging.Runner.{Turn, consume}

-- `offset` counts the messages of the topic of user events that its consumer has committed.
pub record Platform : Type 0 where
  pub world : World
  pub offset : ℕ

pub data Act (Token : Type 0) : Type 0 where
  -- a use case is called
  calls : Draw → UseCase Token → Act Token
  -- the relay polls the outbox
  polls : (fate : String → Fate) → (now : ℕ) → Act Token
  -- a message reaches Kafka that the relay did not send
  arrives : Published → Act Token
  -- the consumer of user events runs, from its start to its end
  consumes : List Turn → Act Token

-- The messages of a topic, which has one partition.
unfoldable pub topic_log : String → List Published → List Published
topic_log topic messages = select (λ (m : Published). m.topic == topic) messages

-- What the deserialiser makes of messages that `json.dumps` wrote.
abbrev pub decoded : List Published → List (Option Json)
decoded messages = map (λ (m : Published). some (Json.obj m.payload)) messages

module _ (s : Settings) (printed : Json → String) where
  unfoldable pub consume_user_events : List Turn → Platform → Platform
  unfolding consume handle_user_events topic_log
  consume_user_events turns p =
      let unread = drop p.offset (topic_log s.kafka_topic_user_events p.world.kafka) in
      let (w, offset) =
        consume (handle_user_events printed) turns (decoded unread) p.offset p.world in
      record { world = w; offset = offset }

module _ {Token : Type 0} (jwt : Jwt Token) (s : Settings) (h : Hasher) (printed : Json → String)
    (isoformat : ℕ → String) where
  unfoldable pub act : Act Token → Platform → Platform
  unfolding perform dispatch_batch publish consume_user_events
  act (Act.calls d c) p = record p { world = perform jwt s h d c p.world }
  act (Act.polls fate now) p = record p { world = dispatch_batch isoformat s fate now p.world }
  act (Act.arrives m) p = record p { world = publish m p.world }
  act (Act.consumes turns) p = consume_user_events s printed turns p

  unfoldable pub run : List (Act Token) → Platform → Platform
  unfolding act
  run [] p = p
  run (a ∷ acts) p = run acts (act a p)
