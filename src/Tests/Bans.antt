-- ===== src/Tests/Bans.antt =====
-- A use of the theorem on banned accounts.
use auth_profile_service.Database.Users.{email_taken}
use auth_profile_service.Database.Users.{save}
use auth_profile_service.Auth.User.{ban}
use auth_profile_service.Database.Users.{get_by_id}
use auth_profile_service.Auth.RolePolicy.{assert_can_ban}
use auth_profile_service.Database.World.{◌>>=◌}
use auth_profile_service.Database.Redis.{has_key}
use auth_profile_service.Sessions.Refresh.{is_blacklisted}
use auth_profile_service.Security.Jwt.{text_claim}
use auth_profile_service.Json.{is_truthy}
use auth_profile_service.Json.{get}
use auth_profile_service.Sessions.{truthy_text}
use auth_profile_service.Auth.RolePolicy.{is_staff}
use auth_profile_service.Common.{◌≡◌, refl, true, some, arith}
use auth_profile_service.Auth.Enums.{Role}
use auth_profile_service.Auth.Errors.{Error, err}
use auth_profile_service.Auth.User.{normalise}
use auth_profile_service.Database.Tables.{find}
use auth_profile_service.Security.Settings.{defaults}
use auth_profile_service.Security.Jwt.{create_refresh_token, signed_claims, refresh_claims}
use auth_profile_service.Sessions.{login, refresh}
use auth_profile_service.Sessions.Tokens.{refresh_ttl, refresh_token_lem}
use auth_profile_service.Accounts.{ban_user}
use auth_profile_service.Accounts.Bans.{banned_out}
use auth_profile_service.Tests.{sealing, sealing_laws, marking, draw, ali, office, office-IsSound}

banned_out_example :
    let w' = (ban_user (draw "b" 7000) Role.support "ali" true "sam" "spam" office).1 in
    ((login sealing defaults marking (draw "y" 8000) "ali@a.com" "pw" "::1" w').0
      ≡ err (Error.account_not_usable "BANNED"))
    × ((refresh sealing defaults
          (draw "y" 8000)
          (create_refresh_token sealing defaults (draw "x" 5000) "ali")
          w').0
        ≡ err (Error.token_error "Account is not active."))
unfolding find normalise is_staff truthy_text get signed_claims refresh_claims is_truthy text_claim
    is_blacklisted has_key ban_user ◌>>=◌ assert_can_ban get_by_id ban save email_taken
banned_out_example =
    banned_out office office-IsSound ali refl (draw "b" 7000) Role.support "sam" "spam" refl refl
      sealing defaults marking (draw "y" 8000) "ali@a.com" "pw" "::1"
      (create_refresh_token sealing defaults (draw "x" 5000) "ali")
      (signed_claims defaults (draw "x" 5000) (refresh_claims "ali") (refresh_ttl defaults))
      (some "x0") refl refl
      (refresh_token_lem sealing defaults sealing_laws (draw "x" 5000) "ali" 8000 (omega arith)
        (omega arith)).0
      refl refl
