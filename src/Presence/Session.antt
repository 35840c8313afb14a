-- ===== src/Presence/Session.antt =====
-- presence_ws_controller.py: what a socket leaves of a person's presence.
use auth_profile_service.Common.{
  ℕ, ◌+◌, ◌*◌, ◌≤◌, ◌<◌, String, ◌≡◌, refl, ◌∙◌, Bool, true, some, List, [], ◌∷◌, ◌++◌, arith, ltb,
  eq_refl, if◌then◌else◌, Bool-cases, inl, inr,
}
use auth_profile_service.Auth.Errors.{ok}
use auth_profile_service.Database.Tables.{find, find-put}
use auth_profile_service.Database.World.{World, Expiring, Draw, ◌>>=◌}
use auth_profile_service.Database.Redis.{presence_key, has_key, set_key, set_online, is_online}
use auth_profile_service.Messaging.Outbox.{publish}
use auth_profile_service.Presence.{
  Arrival, Ending, presence_message, send, update_presence, heartbeats, signed_in,
  presence_heartbeat,
}
use auth_profile_service.Json.{Fields}
use auth_profile_service.Security.Jwt.{Jwt, decode_access_token, text_claim}
use auth_profile_service.Security.Settings.{Settings}

-- The key of the person's presence expires 30 seconds after `t`.
abbrev IsSetAt : String → ℕ → World → Type 0
IsSetAt user_id t w =
    find (λ (e : Expiring). e.key) (presence_key user_id) w.redis
    ≡ some (record { key = presence_key user_id; expires_at = t + 30 * 1000 })

-- Heartbeats that each come less than 30 seconds after the one before, from `t` on.
abbrev pub IsSteady : ℕ → List Arrival → Type 0
IsSteady t [] = Unit
IsSteady t (Arrival.heartbeat d sent ∷ rest) =
    (t ≤ d.now) × (d.now < t + 30000) × IsSteady d.now rest
IsSteady t (Arrival.silence ∷ rest) = Unit
IsSteady t (Arrival.disconnect ∷ rest) = Unit

-- The time of the last heartbeat.
abbrev pub last_seen : ℕ → List Arrival → ℕ
last_seen t [] = t
last_seen t (Arrival.heartbeat d sent ∷ rest) = last_seen d.now rest
last_seen t (Arrival.silence ∷ rest) = t
last_seen t (Arrival.disconnect ∷ rest) = t

-- The answers to heartbeats.
abbrev pub pongs : List Arrival → List String
pongs [] = []
pongs (Arrival.heartbeat d sent ∷ rest) = "pong" ∷ pongs rest
pongs (Arrival.silence ∷ rest) = []
pongs (Arrival.disconnect ∷ rest) = []

module _ (isoformat : ℕ → String) (s : Settings) (user_id : String) where
  set_online-IsSetAt : (t : ℕ) (w : World) → IsSetAt user_id t (set_online t user_id 30 w).1
  unfolding set_online set_key
  set_online-IsSetAt t w =
      find-put (λ (e : Expiring). e.key) (presence_key user_id)
        (record { key = presence_key user_id; expires_at = t + 30 * 1000 }) w.redis
      ∙ rw (eq_refl (presence_key user_id))

  key_live :
      (t now : ℕ) (w : World)
      → IsSetAt user_id t w
      → has_key now (presence_key user_id) w ≡ ltb now (t + 30000)
  unfolding has_key
  key_live t now w set = rw set

  online-IsSetAt :
      (t now : ℕ) (w : World)
      → IsSetAt user_id t w
      → now < t + 30000
      → has_key now (presence_key user_id) w ≡ true
  unfolding has_key
  online-IsSetAt t now w set before = rw set (ground (arith, before))

  -- A heartbeat of somebody who is online moves the time of expiry, and sends nothing.
  beat_online :
      (t : ℕ) (d : Draw) (sent : Bool) (w : World)
      → IsSetAt user_id t w
      → d.now < t + 30000
      → update_presence isoformat s d sent user_id w ≡ (ok tt, (set_online d.now user_id 30 w).1)
  unfolding update_presence ◌>>=◌ is_online set_online set_key
  beat_online t d sent w set before = rw (online-IsSetAt t d.now w set before)

  kafka_after : (t : ℕ) (w : World) → (set_online t user_id 30 w).1.kafka ≡ w.kafka
  unfolding set_online set_key
  kafka_after t w = refl

  steady_lem :
      (t : ℕ) (arrivals : List Arrival) (w : World)
      → IsSetAt user_id t w
      → IsSteady t arrivals
      → let (r, w') = heartbeats isoformat s user_id arrivals w in
        (r ≡ ok (pongs arrivals)) × IsSetAt user_id (last_seen t arrivals) w' × (w'.kafka ≡ w.kafka)
  unfolding heartbeats ◌>>=◌
  steady_lem t [] w set steady = (refl, set, refl)
  steady_lem t (Arrival.silence ∷ rest) w set steady = (refl, set, refl)
  steady_lem t (Arrival.disconnect ∷ rest) w set steady = (refl, set, refl)
  steady_lem t (Arrival.heartbeat d sent ∷ rest) w set steady =
      let after = (set_online d.now user_id 30 w).1 in
      let (answered, is_set, quiet) =
        steady_lem d.now rest after (set_online-IsSetAt d.now w) steady.2 in
      rw (beat_online t d sent w set steady.1, answered) (refl, is_set, quiet ∙ kafka_after d.now w)

  -- The first call of a session: it sets the key, and tells Kafka of somebody who was offline.
  first_lem :
      (d : Draw) (w : World)
      → let (r, w') = update_presence isoformat s d true user_id w in
        (r ≡ ok tt)
        × IsSetAt user_id d.now w'
        × (w'.kafka ≡ (
            if has_key d.now (presence_key user_id) w
            then w.kafka
            else w.kafka ++ presence_message isoformat s d user_id ∷ []))
  unfolding update_presence ◌>>=◌ is_online send publish set_online set_key
  first_lem d w = elim (Bool-cases (has_key d.now (presence_key user_id) w)) [
    | inl e ↦ rw e (refl, set_online-IsSetAt d.now w, refl)
    | inr e ↦ rw e (refl, set_online-IsSetAt d.now w, refl)
  ]

  -- A session whose access token decodes and names a person, whose first message Kafka takes if there
  -- is one, and whose heartbeats each come less than 30 seconds after the one before: it is served
  -- to its end; from the first call on Kafka is told once of a person who was offline, and of one who
  -- was online not at all; and the person is online until 30 seconds after the last heartbeat,
  -- and from then on is not.
  pub presence_heartbeat_lem :
      {Token : Type 0} (jwt : Jwt Token) (token : Token) (claims : Fields) (d : Draw)
      (arrivals : List Arrival) (w : World) (now : ℕ)
      → decode_access_token jwt s d.now token ≡ ok claims
      → text_claim "sub" claims ≡ ok user_id
      → IsSteady d.now arrivals
      → let (r, w') = presence_heartbeat isoformat s jwt (some token) d true arrivals w in
        (r ≡ ok (Ending.served ("ok" ∷ pongs arrivals)))
        × (w'.kafka ≡ (
            if has_key d.now (presence_key user_id) w
            then w.kafka
            else w.kafka ++ presence_message isoformat s d user_id ∷ []))
        × (has_key now (presence_key user_id) w' ≡ ltb now (last_seen d.now arrivals + 30000))
  unfolding presence_heartbeat signed_in ◌>>=◌
  presence_heartbeat_lem jwt token claims d arrivals w now decoded is_sub steady =
      let (started, is_set, told) = first_lem d w in
      let (answered, stays, quiet) =
        steady_lem d.now arrivals (update_presence isoformat s d true user_id w).1 is_set steady in
      rw (decoded, presence_heartbeat, is_sub, started, answered)
        (refl, quiet ∙ told, key_live (last_seen d.now arrivals) now _ stays)
