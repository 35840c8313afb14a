-- ===== src/Messaging/Runner.antt =====
-- app/infrastructure/messaging/kafka_consumer_base.py: the loop of a consumer, and its committed
-- offset over one partition. A message that is not JSON is `none`: aiokafka raises what the
-- deserialiser raises.
pub mod Offsets
use auth_profile_service.Common.{
  ℕ, zero, suc, Bool, true, false, Option, none, some, List, [], ◌∷◌, if◌then◌else◌, drop,
}
use auth_profile_service.Json.{Json}
use auth_profile_service.Database.World.{World, Draw, Exec}
use auth_profile_service.Messaging.Consumers.{Attempt, handle_with_retry}

-- What one turn of the loop meets: `stop` was called before, or the message is handled, with what its
-- attempts meet, and the commit of its offset succeeds or raises.
pub data Turn : Type 0 where
  stopping : Turn
  handled : (first second third : Attempt) → (commits : Bool) → Turn

module _ (handler : Draw → Json → Exec (Unit {0})) where
  -- `_run_loop` over the messages from the committed offset on. Whatever it raises ends it.
  unfoldable pub consume : List Turn → List (Option Json) → (committed : ℕ) → World → World × ℕ
  unfolding handle_with_retry
  consume [] messages committed w = (w, committed)
  consume (turn ∷ turns) [] committed w = (w, committed)
  consume (turn ∷ turns) (none ∷ messages) committed w = (w, committed)
  consume (Turn.stopping ∷ turns) (some m ∷ messages) committed w = (w, committed)
  consume (Turn.handled first second third commits ∷ turns) (some m ∷ messages) committed w =
      let w' = handle_with_retry (λ d. handler d m) first second third w in
      let rest = consume turns messages (suc committed) w' in
      if commits then rest else (w', committed)

  -- One process after another on the same log: each starts at the offset that was committed.
  unfoldable pub restarts : List (List Turn) → List (Option Json) → ℕ → World → World × ℕ
  unfolding consume
  restarts [] log committed w = (w, committed)
  restarts (turns ∷ processes) log committed w =
      let (w', committed') = consume turns (drop committed log) committed w in
      restarts processes log committed' w'
