-- ===== src/Messaging/Consumers.antt =====
-- app/infrastructure/messaging: the consumers of other services' events and of this service's own,
-- and the retries of kafka_consumer_base.py.
use auth_profile_service.Common.{String, Option, none, some, List, [], ◌∷◌}
use auth_profile_service.Json.{Json, Fields}
use auth_profile_service.Auth.Errors.{Error, ok, err}
use auth_profile_service.Database.World.{World, Draw, Exec, pure, lift, ◌>>=◌, ◌>>◌}
use auth_profile_service.Messaging.Envelope.{Envelope, route}
use auth_profile_service.ReadModel.{
  project_user, project_inventory, project_top_posts, project_ownership_granted,
  project_ownership_revoked,
}

-- One attempt at a message.
abbrev pub Handler : Type 0
Handler = Draw → Fields → Exec (Unit {0})

abbrev run_routed : Draw → Option (Envelope × Handler) → Exec (Unit {0})
run_routed d none = pure tt
run_routed d (some (envelope, handler)) = handler d envelope.payload

-- The names of the events.
abbrev auth_user_registered : String
auth_user_registered = "arcadia.auth.v1.UserRegistered"

abbrev catalog_ownership_granted : String
catalog_ownership_granted = "arcadia.catalog.v1.OwnershipGranted"

abbrev catalog_ownership_revoked : String
catalog_ownership_revoked = "arcadia.catalog.v1.OwnershipRevoked"

abbrev marketplace_item_granted : String
marketplace_item_granted = "arcadia.marketplace.v1.ItemGranted"

abbrev marketplace_trade_matched : String
marketplace_trade_matched = "arcadia.marketplace.v1.TradeMatched"

abbrev community_post_reacted : String
community_post_reacted = "arcadia.community.v1.PostReacted"

-- `_project_user`: what the projector returns is dropped.
abbrev handle_user : Handler
handle_user d p = do project_user d p; pure tt

-- `_project_inventory`
abbrev handle_inventory : Handler
handle_inventory = project_inventory

-- `_project_top_posts`
abbrev handle_top_posts : Handler
handle_top_posts = project_top_posts

module _ (printed : Json → String) where
  -- `_project_ownership_granted`
  abbrev handle_ownership_granted : Handler
  handle_ownership_granted = project_ownership_granted printed

  -- `_project_ownership_revoked`
  abbrev handle_ownership_revoked : Handler
  handle_ownership_revoked d p = project_ownership_revoked printed p

  -- `_dispatch`
  unfoldable pub dispatch : List (String × Handler) → Draw → Json → Exec (Unit {0})
  unfolding route
  dispatch handlers d message = do
    routed ← lift (route printed message handlers)
    run_routed d routed

  unfoldable pub handle_user_events : Draw → Json → Exec (Unit {0})
  unfolding dispatch
  handle_user_events = dispatch ((auth_user_registered, handle_user) ∷ [])

  unfoldable pub handle_game_events : Draw → Json → Exec (Unit {0})
  unfolding dispatch
  handle_game_events = dispatch (
      (catalog_ownership_granted, handle_ownership_granted)
      ∷ (catalog_ownership_revoked, handle_ownership_revoked)
      ∷ [])

  unfoldable pub handle_marketplace_events : Draw → Json → Exec (Unit {0})
  unfolding dispatch
  handle_marketplace_events = dispatch (
      (marketplace_item_granted, handle_inventory)
      ∷ (marketplace_trade_matched, handle_inventory)
      ∷ [])

  unfoldable pub handle_community_events : Draw → Json → Exec (Unit {0})
  unfolding dispatch
  handle_community_events = dispatch ((community_post_reacted, handle_top_posts) ∷ [])

-- What one attempt meets: the handler runs to its end with its draws; or a client library raises
-- before anything is stored, the database being out of reach, say; or what the handler did is stored
-- and it raises all the same, the answer to its commit being lost.
pub data Attempt : Type 0 where
  reaches : Draw → Attempt
  fails : Error → Attempt
  unanswered : Draw → Error → Attempt

-- `await self._handler(payload)`
unfoldable pub attempt : (Draw → Exec (Unit {0})) → Attempt → Exec (Unit {0})
attempt handler (Attempt.reaches d) w = handler d w
attempt handler (Attempt.fails e) w = (err e, w)
attempt handler (Attempt.unanswered d e) w = (err e, (handler d w).1)

-- The attempts of `_handle_with_retry`: the first that returns is the last, and after the last one the
-- message is given up.
unfoldable pub attempts : (Draw → Exec (Unit {0})) → List Attempt → World → World
unfolding attempt
attempts handler [] w = w
attempts handler (a ∷ more) w =
    let rest = attempts handler more (attempt handler a w).1 in
    elim (attempt handler a w).0 [ ok u ↦ (attempt handler a w).1 | err e ↦ rest ]

-- `_handle_with_retry`, with the default of three attempts.
unfoldable pub handle_with_retry :
    (Draw → Exec (Unit {0})) → (first second third : Attempt) → World → World
unfolding attempts
handle_with_retry handler first second third = attempts handler (first ∷ second ∷ third ∷ [])
