-- ===== src/Presence.antt =====
-- app/application/use_cases/profile/update_presence.py, and the socket of
-- app/presentation/rest/presence_ws_controller.py that calls it.
pub mod Session
use Prim.Native.String.{◌++◌}
use auth_profile_service.Common.{
  ℕ, String, Bool, true, false, Option, none, some, List, [], ◌∷◌, if◌then◌else◌,
}
use auth_profile_service.Json.{Json, Fields, end, field}
use auth_profile_service.Auth.Errors.{Error, Result, ok, err}
use auth_profile_service.Database.World.{
  World, Published, Draw, Exec, pure, raise, lift, ◌>>=◌, ◌>>◌,
}
use auth_profile_service.Database.Redis.{is_online, set_online}
use auth_profile_service.Messaging.Outbox.{publish}
use auth_profile_service.Security.Settings.{Settings}
use auth_profile_service.Security.Jwt.{Jwt, decode_access_token, text_claim}

abbrev pub presence_ttl_seconds : ℕ
presence_ttl_seconds = 30

abbrev pub close_unauthenticated : ℕ
close_unauthenticated = 4401

-- What arrives on the socket: a frame, with the draw of its call and whether Kafka takes a message
-- that the call sends, or no frame within the time that is waited, or the client's leaving.
pub data Arrival : Type 0 where
  heartbeat : Draw → Bool → Arrival
  silence : Arrival
  disconnect : Arrival

-- How a socket ends: closed with a code, or served, with the frames that it was sent.
pub data Ending : Type 0 where
  closed : ℕ → Ending
  served : List String → Ending

module _ (isoformat : ℕ → String) (s : Settings) where
  -- The message of a PresenceChanged, which is flat.
  unfoldable pub presence_message : Draw → (user_id : String) → Published
  presence_message d user_id = record {
    topic = s.kafka_topic_presence_events;
    key = user_id;
    payload = field "event_type" (Json.str "arcadia.profile.v1.PresenceChanged") (
        field "event_id" (Json.str (d.uuid 0)) (
          field "occurred_at" (Json.str (isoformat d.now))
            (field "user_id" (Json.str user_id) (field "online" (Json.bool true) end))));
  }

  -- `self._event_publisher.publish(…)`
  unfoldable pub send : Bool → Published → Exec (Unit {0})
  unfolding publish
  send false m w = (err Error.kafka_error, w)
  send true m w = (ok tt, publish m w)

  -- `UpdatePresenceUseCase.execute`
  unfoldable pub update_presence : Draw → (sent : Bool) → (user_id : String) → Exec (Unit {0})
  unfolding presence_message send
  update_presence d sent user_id = do
    was_online ← is_online d.now user_id
    set_online d.now user_id presence_ttl_seconds
    if was_online then pure tt else send sent (presence_message d user_id)

  -- The `while True` of the socket, with the frames that it answers.
  unfoldable pub heartbeats : (user_id : String) → List Arrival → Exec (List String)
  unfolding update_presence
  heartbeats user_id [] = pure []
  heartbeats user_id (Arrival.silence ∷ rest) = pure []
  heartbeats user_id (Arrival.disconnect ∷ rest) = pure []
  heartbeats user_id (Arrival.heartbeat d sent ∷ rest) = do
    update_presence d sent user_id
    replies ← heartbeats user_id rest
    pure ("pong" ∷ replies)

  module _ {Token : Type 0} (jwt : Jwt Token) where
    -- The session of a caller whose token decoded.
    unfoldable pub signed_in : Draw → Bool → Fields → List Arrival → Exec Ending
    unfolding heartbeats
    signed_in d sent claims rest = do
      user_id ← lift (text_claim "sub" claims)
      update_presence d sent user_id
      replies ← heartbeats user_id rest
      pure (Ending.served ("ok" ∷ replies))

    -- `presence_heartbeat`; the first frame carries the token, `none` where it does not come.
    unfoldable pub presence_heartbeat : Option Token → Draw → Bool → List Arrival → Exec Ending
    unfolding signed_in
    presence_heartbeat none d sent rest = pure (Ending.closed close_unauthenticated)
    presence_heartbeat (some token) d sent rest = elim (decode_access_token jwt s d.now token) [
      | err e ↦ pure (Ending.closed close_unauthenticated)
      | ok claims ↦ signed_in d sent claims rest
    ]
