-- ===== src/Tests/Ports.antt =====
-- The examples of the ports.
use auth_profile_service.Common.{
  String, ◌≡◌, ◌≢◌, refl, true, false, ◌==◌, eq_iff, some, [], ◌++◌, arith,
}
use auth_profile_service.Auth.Errors.{ok}
use auth_profile_service.Auth.Enums.{Role, UserState}
use auth_profile_service.Auth.User.{User}
use auth_profile_service.Database.World.{World}
use auth_profile_service.Database.Users.{email_taken, outbox_rows, save}
use auth_profile_service.Database.Users.Integrity.{IsSound}
use auth_profile_service.Database.Search.{TextSearch}
use auth_profile_service.Ports.{user_repository}
use auth_profile_service.Ports.Contract.{as_read, user_repository-save}
use auth_profile_service.Tests.{draw, office, office-IsSound}

-- A server that finds nothing and orders nothing.
abbrev blank : TextSearch
blank = record { ilike = λ text pattern. true; precedes = λ x y. true }

abbrev eve : User
eve = record {
  id = "eve";
  email = "eve@a.com";
  password_hash = "$pw";
  display_name = "Eve";
  role = Role.basic_user;
  state = UserState.active;
  created_at = 3000;
  pending_events = [];
}

abbrev office_and_eve : World
office_and_eve = (save (draw "a" 10) eve [] office).1

differ : (a b : String) → (a == b) ≡ false → a ≢ b
differ a b f e = ground (arith, f, (eq_iff a b).1 e)

user_repository-save_example :
    (((user_repository blank).get_by_id "eve" office_and_eve).0 ≡ ok (some (as_read eve)))
    × (((user_repository blank).get_by_email "eve@a.com" office_and_eve).0
        ≡ ok (some (as_read eve)))
    × (((user_repository blank).get_by_id "ali" office_and_eve).0
        ≡ ((user_repository blank).get_by_id "ali" office).0)
    × (office_and_eve.outbox ≡ office.outbox ++ outbox_rows (draw "a" 10) "User" "eve" 1 [])
    × IsSound office_and_eve
unfolding user_repository save email_taken
user_repository-save_example =
    user_repository-save blank (draw "a" 10) eve [] office office_and_eve office-IsSound refl "ali"
      (differ "eve" "ali" refl)
