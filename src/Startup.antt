-- ===== src/Startup.antt =====
-- app/main.py: the start and the end of the service, with app/infrastructure/messaging/topics.py and
-- the tasks of kafka_consumer_base.py and outbox_dispatcher.py. What a client library answers to a
-- call is a parameter, and so is the creation of the tables.
pub mod Lifespan
pub mod Shutdown
pub mod Health
use Prim.Native.String.{◌++◌}
use auth_profile_service.Common.{
  ℕ, String, Bool, true, false, Option, none, some, List, [], ◌∷◌, if◌then◌else◌,
}
use auth_profile_service.Auth.Errors.{Error, Result, ok, err, ◌>>=◌}
use auth_profile_service.Database.World.{World, Draw, Exec, pure, lift}
use auth_profile_service.Database.World
use auth_profile_service.Security.Settings.{Settings}
use auth_profile_service.Security.Passwords.{Hasher}
use auth_profile_service.Accounts.{seed_super_admin}

-- The calls of client libraries that may raise.
pub data ClientCall : Type 0 where
  create_all : ClientCall
  producer_start producer_stop : ClientCall
  consumer_start consumer_stop : (topic : String) → ClientCall
  presence_close blacklist_close engine_dispose : ClientCall

-- What became of a task, if it did not run on: it was cancelled, it returned, or something was raised.
pub data Task : Type 0 where
  running cancelled returned : Task
  failed : Error → Task

pub record Consumer : Type 0 where
  pub topic : String
  pub group_id : String
  pub is_open : Bool
  pub task : Option Task

pub record NewTopic : Type 0 where
  pub name : String
  pub num_partitions : ℕ
  pub replication_factor : ℕ

-- The client of the broker's administration: whether it starts; and, of a call that asks for topics
-- where there are some, whether it returns or raises, and what topics there are after it.
pub record Admin : Type 0 where
  pub starts : Bool
  pub create_topics : List NewTopic → List String → Result (Unit {0}) × List String

-- The singletons of the process, and the topics of the broker.
pub record App : Type 0 where
  pub publisher_open : Bool
  pub dispatcher : Option Task
  pub topics : List String
  pub consumers : List Consumer
  pub presence_open : Bool
  pub blacklist_open : Bool
  pub engine_open : Bool

unfoldable pub topics_to_create : Settings → List String
topics_to_create s =
    s.kafka_topic_user_events ∷ s.kafka_topic_presence_events ∷ s.kafka_topic_trade_events
    ∷ s.kafka_topic_community_events ∷ []

abbrev pub new_topics : List String → List NewTopic
new_topics [] = []
new_topics (name ∷ names) =
    record { name = name; num_partitions = 1; replication_factor = 1 } ∷ new_topics names

-- It never raises: what the client raises is caught, and leaves what topics there are.
unfoldable pub ensure_topics : Settings → Admin → List String → List String
unfolding topics_to_create
ensure_topics s admin existing =
    if admin.starts
    then (admin.create_topics (new_topics (topics_to_create s)) existing).1
    else existing

-- `KafkaConsumerBase(topic, group_id, handler)`
abbrev consumer : String → String → Consumer
consumer topic group_id = record {
  topic = topic;
  group_id = group_id;
  is_open = false;
  task = none;
}

unfoldable pub all_consumers : Settings → List Consumer
all_consumers s =
    consumer s.kafka_topic_wallet_events (s.kafka_consumer_group ++ "-abuse")
    ∷ consumer s.kafka_topic_user_events (s.kafka_consumer_group ++ "-user-sync")
    ∷ consumer s.kafka_topic_game_events (s.kafka_consumer_group ++ "-library")
    ∷ consumer s.kafka_topic_trade_events (s.kafka_consumer_group ++ "-inventory")
    ∷ consumer s.kafka_topic_community_events (s.kafka_consumer_group ++ "-top-posts")
    ∷ []

-- `with contextlib.suppress(asyncio.CancelledError): await self._task`, after `self._task.cancel()`: a
-- task that is done stays as it is.
unfoldable pub cancel_and_wait : Task → Result Task
cancel_and_wait Task.running = ok Task.cancelled
cancel_and_wait Task.cancelled = ok Task.cancelled
cancel_and_wait Task.returned = ok Task.returned
cancel_and_wait (Task.failed e) = err e

unfoldable pub stop_task : Option Task → Result (Option Task)
unfolding cancel_and_wait
stop_task none = ok none
stop_task (some t) = do t' ← cancel_and_wait t; ok (some t')

-- What a resource is after the call that closes it.
abbrev pub stays_open : Result (Unit {0}) → Bool
stays_open (ok u) = false
stays_open (err e) = true

-- A part of the end of the service: what it raises leaves the rest undone.
abbrev pub Ending : Type 0
Ending = App → Result (Unit {0}) × App

abbrev pub go_on : Result (Unit {0}) × App → Ending → Result (Unit {0}) × App
go_on (ok u, app) rest = rest app
go_on (err e, app) rest = (err e, app)

infixr 4 ◌then◌
abbrev pub ◌then◌ : Ending → Ending → Ending
(f then g) app = go_on (f app) g

abbrev pub with_rest :
    Result (Unit {0}) × Consumer
    → List Consumer
    → Result (Unit {0}) × List Consumer
    → Result (Unit {0}) × List Consumer
with_rest (ok u, c) cs (r, cs') = (r, c ∷ cs')
with_rest (err e, c) cs (r, cs') = (err e, c ∷ cs)

module _ (answers : ClientCall → Result (Unit {0})) where
  -- `KafkaConsumerBase.start`
  unfoldable pub start_consumer : Consumer → Result Consumer
  start_consumer c = do
    started ← answers (ClientCall.consumer_start c.topic)
    ok (record c { is_open = true; task = some Task.running })

  unfoldable pub start_each : List Consumer → Result (List Consumer)
  unfolding start_consumer
  start_each [] = ok []
  start_each (c ∷ cs) = do c' ← start_consumer c; cs' ← start_each cs; ok (c' ∷ cs')

  -- The start of `lifespan` after the database.
  unfoldable pub start_app : Settings → Admin → (topics : List String) → Result App
  unfolding start_each ensure_topics all_consumers
  start_app s admin topics = do
    started ← if s.kafka_enabled then answers ClientCall.producer_start else ok tt
    consumers ← if s.kafka_enabled then start_each (all_consumers s) else ok (all_consumers s)
    ok (record {
      publisher_open = s.kafka_enabled;
      dispatcher = if s.kafka_enabled then some Task.running else none;
      topics = if s.kafka_enabled then ensure_topics s admin topics else topics;
      consumers = consumers;
      presence_open = true;
      blacklist_open = true;
      engine_open = true;
    })

  -- The start of `lifespan`: the tables and the seed, and then the rest.
  unfoldable pub start_service :
      Settings → Hasher → (salt : String) → Draw → Admin → (topics : List String) → Exec App
  unfolding start_app seed_super_admin
  start_service s h salt d admin topics =
      World.◌>>=◌
        (if s.run_migrations
          then World.◌>>=◌ (lift (answers ClientCall.create_all))
              (λ made. seed_super_admin s h salt d)
          else pure tt)
        (λ migrated. lift (start_app s admin topics))

  -- `KafkaConsumerBase.stop`
  unfoldable pub stop_consumer : Consumer → Result (Unit {0}) × Consumer
  unfolding stop_task
  stop_consumer c = elim (stop_task c.task) [
    | err e ↦ (err e, c)
    | ok task ↦
        if c.is_open
        then (
          answers (ClientCall.consumer_stop c.topic),
          record c {
            task = task;
            is_open = stays_open (answers (ClientCall.consumer_stop c.topic));
          },
        )
        else (ok tt, record c { task = task })
  ]

  unfoldable pub stop_each : List Consumer → Result (Unit {0}) × List Consumer
  unfolding stop_consumer
  stop_each [] = (ok tt, [])
  stop_each (c ∷ cs) = with_rest (stop_consumer c) cs (stop_each cs)

  abbrev pub stop_consumers : Ending
  stop_consumers app = let (r, cs) = stop_each app.consumers in (r, record app { consumers = cs })

  -- `OutboxDispatcher.stop`
  abbrev pub stop_dispatcher : Ending
  stop_dispatcher app = elim (stop_task app.dispatcher) [
    | err e ↦ (err e, app)
    | ok task ↦ (ok tt, record app { dispatcher = task })
  ]

  -- `KafkaEventPublisher.stop`
  abbrev pub stop_publisher : Ending
  stop_publisher app =
      if app.publisher_open
      then (
        answers ClientCall.producer_stop,
        record app { publisher_open = stays_open (answers ClientCall.producer_stop) },
      )
      else (ok tt, app)

  -- The three calls after the switch.
  abbrev pub close_stores : Ending
  close_stores =
      (λ app. (
        answers ClientCall.presence_close,
        record app { presence_open = stays_open (answers ClientCall.presence_close) },
      ))
      then (λ app. (
        answers ClientCall.blacklist_close,
        record app { blacklist_open = stays_open (answers ClientCall.blacklist_close) },
      ))
      then (λ app. (
        answers ClientCall.engine_dispose,
        record app { engine_open = stays_open (answers ClientCall.engine_dispose) },
      ))

  -- The end of `lifespan`.
  unfoldable pub stop_service : Settings → App → Result (Unit {0}) × App
  unfolding stop_each stop_task
  stop_service s =
      if s.kafka_enabled
      then (stop_consumers then stop_dispatcher then stop_publisher then close_stores)
      else close_stores
