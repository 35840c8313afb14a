-- ===== src/Tests/SignIn.antt =====
-- Uses of the theorems on sessions and registration.
use auth_profile_service.Database.Redis.{has_key}
use auth_profile_service.Sessions.Refresh.{is_blacklisted}
use auth_profile_service.Security.Jwt.{text_claim}
use auth_profile_service.Json.{is_truthy}
use auth_profile_service.Sessions.{truthy_text}
use auth_profile_service.Auth.Enums.{role_value}
use auth_profile_service.Common.{◌≡◌, refl, true, some, [], arith}
use auth_profile_service.Json.{Json, get}
use auth_profile_service.Auth.Errors.{Error, ok, err}
use auth_profile_service.Auth.User.{normalise}
use auth_profile_service.Database.Tables.{find}
use auth_profile_service.Security.Settings.{defaults}
use auth_profile_service.Security.Jwt.{
  create_access_token, create_refresh_token, decode_access_token, decode_refresh_token,
  signed_claims, access_claims, refresh_claims,
}
use auth_profile_service.Sessions.{login, refresh, logout}
use auth_profile_service.Sessions.Login.{login_lem, outcome, audited}
use auth_profile_service.Sessions.Refresh.{answer, refresh_lem}
use auth_profile_service.Sessions.Logout.{logout_revokes, logout_gap}
use auth_profile_service.Sessions.Tokens.{
  access_ttl, refresh_ttl, access_token_lem, refresh_token_lem,
}
use auth_profile_service.Accounts.{register_user}
use auth_profile_service.Accounts.Registration.{register_then_login}
use auth_profile_service.Tests.{
  sealing, sealing_laws, marking, marking_laws, draw, ali, office, office-IsSound,
}

login_lem_example :
    login sealing defaults marking (draw "x" 5000) " ALI@a.com" "pw" "::1" office ≡ (
      ok (
        create_access_token sealing defaults (draw "x" 5000) "ali" "BASIC_USER" [],
        create_refresh_token sealing defaults (draw "x" 5000) "ali",
      ),
      audited (draw "x" 5000) (some "ali") "::1" true office,
    )
unfolding outcome find normalise role_value
login_lem_example =
    login_lem sealing defaults marking (draw "x" 5000) " ALI@a.com" "pw" "::1" office office-IsSound

access_token_lem_example :
    let token = create_access_token sealing defaults (draw "x" 5000) "ali" "ADMIN" [] in
    let claims =
      signed_claims defaults
        (draw "x" 5000)
        (access_claims "ali" "ADMIN" [])
        (access_ttl defaults) in
    (decode_access_token sealing defaults 6000 token ≡ ok claims)
    × (get "sub" claims ≡ some (Json.str "ali"))
    × (get "role" claims ≡ some (Json.str "ADMIN"))
    × (decode_refresh_token sealing defaults 6000 token
        ≡ err (Error.token_error "Expected a 'refresh' token."))
access_token_lem_example =
    access_token_lem sealing defaults sealing_laws (draw "x" 5000) "ali" "ADMIN" [] 6000
      (omega arith) (omega arith)

refresh_lem_example :
    refresh sealing defaults
      (draw "y" 6000)
      (create_refresh_token sealing defaults (draw "x" 5000) "ali")
      office
    ≡ (ok (create_access_token sealing defaults (draw "y" 6000) "ali" "BASIC_USER" []), office)
unfolding answer find truthy_text get signed_claims refresh_claims is_truthy text_claim
    is_blacklisted has_key role_value
refresh_lem_example =
    refresh_lem sealing defaults (draw "y" 6000)
      (create_refresh_token sealing defaults (draw "x" 5000) "ali") office
      (signed_claims defaults (draw "x" 5000) (refresh_claims "ali") (refresh_ttl defaults)) "ali"
      (some "x0")
      (refresh_token_lem sealing defaults sealing_laws (draw "x" 5000) "ali" 6000 (omega arith)
        (omega arith)).0
      refl refl

logout_revokes_example :
    (refresh sealing defaults
      (draw "z" 604804000)
      (create_refresh_token sealing defaults (draw "x" 5000) "ali")
      (logout sealing defaults
        (draw "y" 6000)
        (create_refresh_token sealing defaults (draw "x" 5000) "ali")
        office).1).0
    ≡ err (Error.token_error "Refresh token has been revoked.")
logout_revokes_example =
    logout_revokes sealing defaults sealing_laws (draw "x" 5000) "ali" refl (draw "y" 6000)
      (draw "z" 604804000) office (omega arith) (omega arith) (omega arith) (omega arith)

-- Half a second before the token expires, after a sign-out at a broken second.
logout_gap_example :
    (refresh sealing defaults
      (draw "z" 604804600)
      (create_refresh_token sealing defaults (draw "x" 5000) "ali")
      (logout sealing defaults
        (draw "y" 6500)
        (create_refresh_token sealing defaults (draw "x" 5000) "ali")
        office).1).0
    ≡ ok (create_access_token sealing defaults (draw "z" 604804600) "ali" "BASIC_USER" [])
unfolding find role_value
logout_gap_example =
    logout_gap sealing defaults sealing_laws (draw "x" 5000) "ali" refl (draw "y" 6500)
      (draw "z" 604804600) office ali (omega arith) (omega arith) (omega arith) (omega arith) refl
      refl

register_then_login_example :
    (login sealing defaults marking
      (draw "x" 8000)
      "nia@a.com"
      "pw"
      "::1"
      (register_user marking "s" (draw "n" 7000) "Nia@A.com" "pw" "Nia" office).1).0
    ≡ ok (
      create_access_token sealing defaults (draw "x" 8000) "n0" "BASIC_USER" [],
      create_refresh_token sealing defaults (draw "x" 8000) "n0",
    )
unfolding normalise find
register_then_login_example =
    register_then_login marking "s" (draw "n" 7000) "Nia@A.com" "pw" "Nia" office office-IsSound
      sealing defaults (draw "x" 8000) "nia@a.com" "::1" marking_laws refl refl refl
