-- ===== src/Messaging/Registered.antt =====
-- From a registration to the profile: the event that the outbox carries, its envelope, and the
-- projector that reads it.
use auth_profile_service.Common.{ℕ, String, ◌≡◌, refl, false, some, [], ◌∷◌, is_empty, eq_refl}
use auth_profile_service.Json.{Json, get, is_truthy}
use auth_profile_service.Auth.Errors.{ok}
use auth_profile_service.Auth.Events.{DomainEvent, event_type, to_payload}
use auth_profile_service.Database.World.{OutboxRow, World, Draw, ◌>>=◌}
use auth_profile_service.Database.Profiles.{create_if_missing, insert_if_missing}
use auth_profile_service.Security.Settings.{Settings}
use auth_profile_service.Messaging.Envelope.{Envelope, parse, route, handler_for, text_or_empty}
use auth_profile_service.Messaging.Outbox.{envelope_for}
use auth_profile_service.Messaging.Consumers.{dispatch, handle_user_events}
use auth_profile_service.ReadModel.{project_user, required_text, optional_text}

text_or_empty-text :
    (printed : Json → String) (t : String) → text_or_empty printed (some (Json.str t)) ≡ t
unfolding text_or_empty is_truthy
text_or_empty-text printed String.[] = refl
text_or_empty-text printed (String.◌∷◌ c t) = refl

-- The envelope of an outbox row with an id and an event type is read back with the row's id, type,
-- aggregate and payload.
pub parse-envelope_for :
    (printed : Json → String) (isoformat : ℕ → String) (s : Settings) (row : OutboxRow)
    → is_empty row.id ≡ false
    → is_empty row.event_type ≡ false
    → parse printed (Json.obj (envelope_for isoformat s row))
      ≡ ok (record {
        event_id = row.id;
        event_type = row.event_type;
        aggregate_id = row.aggregate_id;
        payload = row.payload;
        producer = s.app_name;
        occurred_at = isoformat row.created_at;
      })
unfolding parse envelope_for get
parse-envelope_for printed isoformat s row i t = simp (
  text_or_empty-text printed row.id,
  text_or_empty-text printed row.event_type,
  text_or_empty-text printed row.aggregate_id,
  text_or_empty-text printed s.app_name,
  text_or_empty-text printed (isoformat row.created_at),
  i,
  t,
)

-- The profiles with a row for the account, if there was none.
unfoldable pub with_profile : ℕ → String → String → World → World
unfolding insert_if_missing
with_profile now user_id name w = record w {
  db = record w.db { profiles = insert_if_missing now user_id name w.profiles };
}

module _ (printed : Json → String) (isoformat : ℕ → String) (s : Settings) (row : OutboxRow) where
  abbrev envelope : Envelope
  envelope = record {
    event_id = row.id;
    event_type = row.event_type;
    aggregate_id = row.aggregate_id;
    payload = row.payload;
    producer = s.app_name;
    occurred_at = isoformat row.created_at;
  }

  route_one :
      {H : Type 0} (k : String) (h : H)
      → is_empty row.id ≡ false
      → row.event_type ≡ k
      → is_empty k ≡ false
      → route printed (Json.obj (envelope_for isoformat s row)) ((k, h) ∷ [])
        ≡ ok (some (envelope, h))
  unfolding route handler_for
  route_one k h i t e =
      rw (parse-envelope_for printed isoformat s row i (rw t e), t, eq_refl k, route)

  -- A registration's outbox row, put in its envelope and handed to the consumer of user events, gives
  -- the account a profile with the display name if it has none, and changes nothing else.
  pub registered_profile :
      (user_id email name role state : String) (d : Draw) (w : World)
      → is_empty row.id ≡ false
      → row.event_type ≡ event_type (DomainEvent.user_registered user_id email name role state)
      → row.payload ≡ to_payload (DomainEvent.user_registered user_id email name role state)
      → handle_user_events printed d (Json.obj (envelope_for isoformat s row)) w
        ≡ (ok tt, with_profile d.now user_id name w)
  unfolding handle_user_events dispatch ◌>>=◌ event_type to_payload project_user required_text
      optional_text get create_if_missing with_profile
  registered_profile user_id email name role state d w i t p =
      rw (route_one "arcadia.auth.v1.UserRegistered" _ i t refl, p)
