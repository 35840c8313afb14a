-- ===== src/Tests/Web.antt =====
-- Uses of the theorems on the routes, with what FastAPI 0.115 answers by itself.
use auth_profile_service.Common.{String, ◌≡◌, refl, ◌⊎◌, true, false, false, Option, some, [], ◌∷◌}
use auth_profile_service.Auth.Enums.{Role}
use auth_profile_service.Auth.Errors.{Error, err}
use auth_profile_service.Database.World.{World}
use auth_profile_service.Dto.{RegisterRequest}
use auth_profile_service.Rest.{Framework, CurrentUser, is_allowed}
use auth_profile_service.Rest.Accounts.{Checks, register_route}
use auth_profile_service.Rest.Admin.{AdminRequest, allowed_roles, admin_body, admin_route}
use auth_profile_service.Rest.Guards.{
  IsBearerOf, IsRefusal, Refused, admin_route_lem, admin_body-Refused,
}
use auth_profile_service.Rest.Bounds.{IsFit, register_route-bounds}
use auth_profile_service.Accounts.{register_user}
use auth_profile_service.Security.Settings.{defaults}
use auth_profile_service.Security.Jwt.{create_access_token}
use auth_profile_service.Tests.{Sealed, sealing, marking, draw, office}

abbrev fastapi : Framework
fastapi = record {
  no_credentials = Error.http_exception 403 "Not authenticated";
  invalid_request = Error.http_exception 422 "";
  rate_exceeded = Error.http_exception 429 "";
}

abbrev token_of_sam : Option Sealed
token_of_sam = some (create_access_token sealing defaults (draw "x" 5000) "sam" "SUPPORT" [])

abbrev ban_ali : AdminRequest
ban_ali = AdminRequest.ban "ali" (some "spam")

admin_route_lem_example :
    ((user : CurrentUser) × IsBearerOf sealing defaults fastapi 7000 token_of_sam user
      × (is_allowed user.role (allowed_roles ban_ali) ≡ true)
      × (admin_route sealing defaults fastapi (draw "b" 7000) token_of_sam ban_ali office
          ≡ admin_body (draw "b" 7000) user ban_ali office))
    ⊎ ((e : Error) × IsRefusal sealing defaults fastapi token_of_sam e
        × (admin_route sealing defaults fastapi (draw "b" 7000) token_of_sam ban_ali office
            ≡ (err e, office)))
admin_route_lem_example =
    admin_route_lem sealing defaults fastapi (draw "b" 7000) token_of_sam ban_ali office

abbrev as_ali : CurrentUser
as_ali = record { user_id = "ali"; role = Role.basic_user }

admin_body-Refused_example :
    Refused Sealed as_ali (draw "b" 7000) (AdminRequest.grant "ali" "ADMIN") office
unfolding is_allowed allowed_roles
admin_body-Refused_example =
    admin_body-Refused Sealed (draw "b" 7000) as_ali (AdminRequest.grant "ali" "ADMIN") office refl

-- A profile with a hidden game.
abbrev gallery : World
gallery = record office {
  db = record office.db {
    profiles =
        record {
          user_id = "ali";
          display_name = "Ali";
          avatar_url = "";
          online = false;
          updated_at = 1000;
        }
        ∷ [];
    owned_games =
        record { id = "g0"; user_id = "ali"; game_id = "chess"; hidden = true; acquired_at = 1000 }
        ∷ [];
  };
}

abbrev lenient : Checks
lenient = record { email_str = λ text. some text; within_rate = true }

abbrev nia : RegisterRequest
nia = record { email = "nia@a.com"; password = "password"; display_name = "Nia" }

register_route-bounds_example :
    ((register_route sealing defaults marking fastapi lenient "s" (draw "n" 7000) nia office).1
      ≡ office)
    ⊎ (IsFit nia
        × (true ≡ true)
        × (email : String) × (some "nia@a.com" ≡ some email)
        × ((register_route sealing defaults marking fastapi lenient "s"
              (draw "n" 7000)
              nia
              office).1
            ≡ (register_user marking "s" (draw "n" 7000) email "password" "Nia" office).1))
register_route-bounds_example =
    register_route-bounds sealing defaults marking fastapi lenient "s" (draw "n" 7000) nia office
