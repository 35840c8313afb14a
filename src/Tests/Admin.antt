-- ===== src/Tests/Admin.antt =====
-- Uses of the theorems on the administration of accounts.
use auth_profile_service.Auth.User.{register_super_admin}
use auth_profile_service.Common.{◌≡◌, refl, true, some, [], ◌∷◌}
use auth_profile_service.Auth.Enums.{Role, UserState}
use auth_profile_service.Auth.Errors.{Error, ok, err}
use auth_profile_service.Auth.User.{normalise}
use auth_profile_service.Database.Tables.{find}
use auth_profile_service.Database.Users.{to_user_row}
use auth_profile_service.Database.Users.Integrity.{IsSound, find_user, find_email}
use auth_profile_service.Security.Settings.{Settings, defaults}
use auth_profile_service.Accounts.{grant_role, request_role, decide_role_request, seed_super_admin}
use auth_profile_service.Accounts.Integrity.{UseCase, serve, serve-IsSound}
use auth_profile_service.Accounts.Escalation.{support_becomes_admin}
use auth_profile_service.Accounts.Seed.{seed_fails, seed_once}
use auth_profile_service.Tests.{sealing, marking, draw, sam, office, office-IsSound}

serve-IsSound_example : IsSound (
    serve sealing defaults marking
      ((draw "n" 7000, UseCase.register "s" "Nia@A.com" "pw" "Nia")
        ∷ (draw "m" 8000, UseCase.request "ali" Role.developer)
        ∷ (draw "k" 9000, UseCase.decide_request Role.support "m0" true "sam" "ok")
        ∷ [])
      office)
serve-IsSound_example =
    serve-IsSound sealing defaults marking
      ((draw "n" 7000, UseCase.register "s" "Nia@A.com" "pw" "Nia")
        ∷ (draw "m" 8000, UseCase.request "ali" Role.developer)
        ∷ (draw "k" 9000, UseCase.decide_request Role.support "m0" true "sam" "ok")
        ∷ [])
      office office-IsSound

support_becomes_admin_example :
    let w' = (request_role (draw "m" 8000) "sam" Role.admin office).1 in
    let w'' = (decide_role_request (draw "k" 9000) Role.support "m0" true "sam" "mine" w').1 in
    (find_user "sam" w''.users ≡ some (record sam { role = Role.admin }))
    × (grant_role (draw "k" 9000) Role.support "sam" Role.admin "sam" office ≡ (
      err (Error.invalid_role_transition "Only ADMIN can directly grant/change a user's role."),
      office,
    ))
unfolding find
support_becomes_admin_example =
    support_becomes_admin office office-IsSound sam refl (draw "m" 8000) refl (draw "k" 9000) "mine"
      refl

abbrev mixed : Settings
mixed = record defaults { super_admin_email = "Sam@A.com" }

seed_fails_example :
    seed_super_admin mixed marking "s" (draw "n" 7000) office ≡ (err Error.integrity_error, office)
unfolding find normalise
seed_fails_example =
    seed_fails mixed marking "s" (draw "n" 7000) office office-IsSound sam refl refl (λ e. cc)

seed_once_example :
    let w' = (seed_super_admin defaults marking "s" (draw "n" 7000) office).1 in
    (find_email "admin@arcadia.com" w'.users
      ≡ some (record {
        id = "n0";
        email = "admin@arcadia.com";
        password_hash = "$admin-password";
        display_name = "Super Admin";
        role = Role.admin;
        state = UserState.active;
        created_at = 7000;
      }))
    × (Role.admin ≡ Role.admin)
    × (UserState.active ≡ UserState.active)
    × (seed_super_admin defaults marking "t" (draw "m" 9000) w' ≡ (ok tt, w'))
unfolding find normalise to_user_row register_super_admin
seed_once_example =
    seed_once defaults marking "s" (draw "n" 7000) office office-IsSound marking "t" (draw "m" 9000)
      refl refl refl
