-- ===== src/Tests/Events.antt =====
-- Uses of the theorems on the outbox, the envelope and the projectors.
use auth_profile_service.ReadModel.{optional_text}
use auth_profile_service.ReadModel.{required_text}
use auth_profile_service.Common.{has_part, select, ◌+◌, ◌≤◌, lower, true, false, is_empty}
use auth_profile_service.Json.{is_truthy}
use auth_profile_service.Common.{
  ℕ, String, ◌≡◌, refl, false, none, [], ◌∷◌, arith, length, map, ◌⊎◌, ◌==◌, if◌then◌else◌,
}
use Prim.Native.String.{count}
use auth_profile_service.Security.Settings.{Settings, is_production, reject_placeholder_secrets}
use auth_profile_service.Security.Settings.Boot.{reject_placeholder_secrets_lem}
use auth_profile_service.Profile.{Profile, OwnedGame}
use auth_profile_service.ReadModel.{project_inventory}
use auth_profile_service.ReadModel.Inventory.{items, inventory_twice}
use auth_profile_service.Json.{Json, Fields, end, field, get}
use auth_profile_service.Auth.Errors.{ok}
use auth_profile_service.Auth.Events.{DomainEvent, event_type, to_payload}
use auth_profile_service.Database.Tables.{Unique, find}
use auth_profile_service.Database.World.{OutboxRow, World}
use auth_profile_service.Security.Settings.{defaults}
use auth_profile_service.Messaging.Outbox.{Fate, envelope_for, message_of, run_loop}
use auth_profile_service.Messaging.Delivery.{IsAccounted, run_loop-Kept}
use auth_profile_service.Messaging.Consumers.{handle_user_events}
use auth_profile_service.Messaging.Registered.{with_profile, registered_profile}
use auth_profile_service.ReadModel.{owner_of, project_ownership_granted, project_ownership_revoked}
use auth_profile_service.ReadModel.Library.{owned, grant_twice}
use auth_profile_service.ReadModel.Revocation.{revoke_lem}
use auth_profile_service.Tests.{draw, ali, sam, office}

-- No value that the examples print is neither a text nor false.
abbrev print : Json → String
print v = "?"

-- A stand-in for a time's text.
abbrev iso : ℕ → String
iso n = "1970-01-01T00:00:00+00:00"

abbrev outbox_row : String → ℕ → OutboxRow
outbox_row id at = record {
  id = id;
  aggregate_type = "User";
  aggregate_id = "ali";
  topic = "user-events";
  event_type =
      event_type (DomainEvent.user_registered "ali" "ali@a.com" "Ali" "BASIC_USER" "ACTIVE");
  payload = to_payload (DomainEvent.user_registered "ali" "ali@a.com" "Ali" "BASIC_USER" "ACTIVE");
  dispatched = false;
  created_at = at;
  dispatched_at = none;
}

abbrev pending : World
pending = record office {
  db = record office.db { outbox = outbox_row "e2" 9 ∷ outbox_row "e1" 5 ∷ [] };
}

-- The first message is published and its mark lost; the other one is delivered.
abbrev trouble : String → Fate
trouble id = if id == "e1" then Fate.unmarked else Fate.delivered

abbrev fine : String → Fate
fine id = Fate.delivered

run_loop-Kept_example :
    let w' = run_loop iso defaults ((fine, 20) ∷ (trouble, 30) ∷ []) pending in
    (map (message_of iso defaults) w'.outbox ≡ map (message_of iso defaults) pending.outbox)
    × IsAccounted iso defaults w'
    × Unique (λ r. r.id) w'.outbox
unfolding find
run_loop-Kept_example =
    run_loop-Kept iso defaults ((fine, 20) ∷ (trouble, 30) ∷ []) pending (refl, (refl, tt))
      (λ e. cc, (λ e. cc, tt))

registered_profile_example :
    handle_user_events print
      (draw "p" 40)
      (Json.obj (envelope_for iso defaults (outbox_row "e1" 5)))
      office
    ≡ (ok tt, with_profile 40 "ali" "Ali" office)
registered_profile_example =
    registered_profile print iso defaults (outbox_row "e1" 5) "ali" "ali@a.com" "Ali" "BASIC_USER"
      "ACTIVE" (draw "p" 40) office refl refl refl

abbrev gift : Fields
gift = field "owner_id" (Json.str "ali") (field "game_id" (Json.str "chess") end)

grant_twice_example :
    let (r, w') = project_ownership_granted print (draw "a" 50) gift office in
    (r ≡ ok tt)
    × (length (owned "ali" "chess" w') ≡ 1)
    × (project_ownership_granted print (draw "b" 60) gift w' ≡ (ok tt, w'))
unfolding owner_of get is_truthy select
grant_twice_example =
    grant_twice print gift (draw "a" 50) (draw "b" 60) office (refl, refl) (omega arith)

abbrev chess : String
chess = "chess"

abbrev with_chess : World
with_chess = record office {
  db = record office.db {
    owned_games =
        record { id = "g1"; user_id = "ali"; game_id = "chess"; hidden = false; acquired_at = 1 }
        ∷ record { id = "g2"; user_id = "sam"; game_id = "chess"; hidden = false; acquired_at = 2 }
        ∷ [];
  };
}

revoke_lem_example :
    let (r, w') = project_ownership_revoked print gift with_chess in
    (r ≡ ok tt)
    × (owned "ali" "chess" w' ≡ [])
    × ((sam.id ≡ ali.id) × (chess ≡ chess)
        ⊎ (owned "sam" "chess" w' ≡ owned "sam" "chess" with_chess))
    × (project_ownership_revoked print gift w' ≡ (ok tt, w'))
unfolding owner_of get is_truthy
revoke_lem_example = revoke_lem print gift with_chess "sam" "chess" (refl, refl)

abbrev sword : Fields
sword =
    field "user_id" (Json.str "ali")
      (field "item_id" (Json.str "sword") (field "game_id" (Json.str "chess") end))

inventory_twice_example :
    let w' = (project_inventory (draw "a" 50) sword office).1 in
    length (items "ali" "sword" (project_inventory (draw "b" 60) sword w').1)
    ≡ length (items "ali" "sword" office) + 2
unfolding required_text get optional_text
inventory_twice_example =
    inventory_twice sword "ali" "" "sword" "chess" (draw "a" 50) (draw "b" 60) office
      (refl, refl, refl, refl)

-- The default password of the first administrator passes the check.
abbrev shipped : Settings
shipped = record defaults { env = "production"; jwt_secret = "0123456789abcdef0123456789abcdef" }

reject_placeholder_secrets_lem_example :
    (shipped ≡ shipped)
    × (is_production shipped ≡ true
        → (32 ≤ count shipped.jwt_secret)
          × (has_part "change_me" (lower shipped.jwt_secret) ≡ false)
          × (has_part "change-me" (lower shipped.jwt_secret) ≡ false)
          × (has_part "changeme" (lower shipped.super_admin_password) ≡ false)
          × (is_empty shipped.jwt_issuer ≡ false)
          × (is_empty shipped.jwt_audience ≡ false))
reject_placeholder_secrets_lem_example =
    reject_placeholder_secrets_lem shipped shipped (unfold reject_placeholder_secrets in refl)

abbrev secret : OwnedGame
secret = record { id = "g1"; user_id = "sam"; game_id = "chess"; hidden = true; acquired_at = 1 }

abbrev shelf : Profile
shelf = record {
  user_id = "sam";
  display_name = "Sam";
  avatar_url = "";
  online = false;
  owned_games = secret ∷ [];
  owned_items = [];
  top_posts = [];
  updated_at = 0;
}
