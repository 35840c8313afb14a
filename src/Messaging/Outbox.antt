-- ===== src/Messaging/Outbox.antt =====
-- app/infrastructure/messaging/outbox_dispatcher.py: the relay from the outbox to Kafka.
use auth_profile_service.Common.{
  ℕ, String, true, not, some, List, [], ◌∷◌, ◌++◌, ◌==◌, if◌then◌else◌, select, take, leb,
}
use auth_profile_service.Json.{Json, Fields, end, field}
use auth_profile_service.Json.Int.{ℤ}
use auth_profile_service.Database.World.{OutboxRow, Published, World}
use auth_profile_service.Security.Settings.{Settings}

-- What a row meets while it is dispatched. `escaped` is an error that the handler itself meets, as
-- on a row that the rollback before has expired: it leaves the rest of the batch.
pub data Fate : Type 0 where
  -- published, and marked
  delivered : Fate
  -- published, but the mark was rolled back
  unmarked : Fate
  -- not published
  unsent : Fate
  escaped : Fate

unfoldable pub insert_by_time : OutboxRow → List OutboxRow → List OutboxRow
insert_by_time r [] = r ∷ []
insert_by_time r (s ∷ rest) =
    if leb r.created_at s.created_at then r ∷ s ∷ rest else s ∷ insert_by_time r rest

-- `order_by(created_at)`: equal times stay in the order of the table.
unfoldable pub order_by_time : List OutboxRow → List OutboxRow
unfolding insert_by_time
order_by_time [] = []
order_by_time (r ∷ rest) = insert_by_time r (order_by_time rest)

unfoldable pub undispatched : List OutboxRow → List OutboxRow
undispatched rows = select (λ (r : OutboxRow). not r.dispatched) rows

-- The rows that one poll reads.
unfoldable pub batch : ℕ → List OutboxRow → List OutboxRow
unfolding order_by_time undispatched
batch limit rows = take limit (order_by_time (undispatched rows))

-- `update … where id == row.id`
unfoldable pub mark : (now : ℕ) (id : String) → List OutboxRow → List OutboxRow
mark now id [] = []
mark now id (r ∷ rest) =
    (if r.id == id then record r { dispatched = true; dispatched_at = some now } else r)
    ∷ mark now id rest

unfoldable pub publish : Published → World → World
publish m w = record w { kafka = w.kafka ++ m ∷ [] }

unfoldable pub marked : (now : ℕ) (id : String) → World → World
unfolding mark
marked now id w = record w { db = record w.db { outbox = mark now id w.outbox } }

-- `isoformat` writes a time with its offset.
module _ (isoformat : ℕ → String) (s : Settings) where
  unfoldable pub envelope_for : OutboxRow → Fields
  envelope_for row = field "event_id" (Json.str row.id) (
      field "event_type" (Json.str row.event_type) (
        field "schema_version" (Json.num (ℤ.pos 1)) (
          field "occurred_at" (Json.str (isoformat row.created_at)) (
            field "producer" (Json.str s.app_name) (
              field "aggregate_type" (Json.str row.aggregate_type) (
                field "aggregate_id" (Json.str row.aggregate_id)
                  (field "payload" (Json.obj row.payload) end)))))))

  unfoldable pub message_of : OutboxRow → Published
  unfolding envelope_for
  message_of row = record { topic = row.topic; key = row.aggregate_id; payload = envelope_for row }

  -- The loop of `_dispatch_batch` over the rows that were read.
  unfoldable pub dispatch_rows : (String → Fate) → (now : ℕ) → List OutboxRow → World → World
  unfolding message_of publish marked
  dispatch_rows fate now [] w = w
  dispatch_rows fate now (row ∷ rest) w = elim (fate row.id) [
    | delivered ↦ dispatch_rows fate now rest (marked now row.id (publish (message_of row) w))
    | unmarked ↦ dispatch_rows fate now rest (publish (message_of row) w)
    | unsent ↦ dispatch_rows fate now rest w
    | escaped ↦ w
  ]

  unfoldable pub dispatch_batch : (String → Fate) → (now : ℕ) → World → World
  unfolding batch dispatch_rows
  dispatch_batch fate now w = dispatch_rows fate now (batch s.outbox_batch_size w.outbox) w

  -- `_run_loop`: one poll after another, each with what its rows meet.
  unfoldable pub run_loop : List ((String → Fate) × ℕ) → World → World
  unfolding dispatch_batch
  run_loop [] w = w
  run_loop ((fate, now) ∷ polls) w = run_loop polls (dispatch_batch fate now w)
