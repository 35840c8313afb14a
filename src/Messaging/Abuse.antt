-- ===== src/Messaging/Abuse.antt =====
-- app/infrastructure/messaging/consumers/abuse_event_consumer.py: the wallet's detections, which
-- flag an account in the log and change nothing. What is returned is what the log line carries.
use auth_profile_service.Common.{String, Option, none, some, [], ◌∷◌, select, ◌==◌}
use auth_profile_service.Json.{Json, Fields, get}
use auth_profile_service.Database.Tables.{scalar_one_or_none}
use auth_profile_service.Database.World.{UserRow, Exec, pure, lift, ◌>>=◌}
use auth_profile_service.Messaging.Envelope.{Envelope, route}
use auth_profile_service.Sessions.{truthy_text}

pub record Flag : Type 0 where
  pub user_id : String
  pub email : String
  pub reason : Json

-- `payload.get("reason", "gift-card abuse pattern")`
abbrev reason_of : Fields → Json
reason_of payload = elim (get "reason" payload) [
  | none ↦ Json.str "gift-card abuse pattern"
  | some reason ↦ reason
]

abbrev flag_of : Fields → Option UserRow → Option Flag
flag_of payload none = none
flag_of payload (some user) =
    some (record { user_id = user.id; email = user.email; reason = reason_of payload })

-- `select(UserModel).where(UserModel.id == user_id)`
unfoldable pub select_user : String → Exec (Option UserRow)
select_user user_id w = (scalar_one_or_none (select (λ r. r.id == user_id) w.users), w)

abbrev look_up : Option String → Exec (Option UserRow)
look_up none = pure none
look_up (some user_id) = select_user user_id

-- `_flag`
unfoldable pub flag : Fields → Exec (Option Flag)
unfolding select_user
flag payload = do
  user_id ← lift (truthy_text (get "user_id" payload))
  user ← look_up user_id
  pure (flag_of payload user)

abbrev flag_routed : Option (Envelope × (Fields → Exec (Option Flag))) → Exec (Option Flag)
flag_routed none = pure none
flag_routed (some (envelope, handler)) = handler envelope.payload

module _ (printed : Json → String) where
  -- `AbuseEventConsumer.handle`
  unfoldable pub handle_abuse : Json → Exec (Option Flag)
  unfolding flag
  handle_abuse message = do
    routed ← lift (route printed message (("arcadia.wallet.v1.GiftCardAbuseDetected", flag) ∷ []))
    flag_routed routed
