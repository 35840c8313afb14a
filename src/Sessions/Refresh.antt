-- ===== src/Sessions/Refresh.antt =====
-- refresh_token.py: what a refreshed access token rests on.
use auth_profile_service.Common.{
  ℕ, String, ◌≡◌, Bool, true, false, Option, none, some, [], arith, if◌then◌else◌,
}
use auth_profile_service.Json.{Fields, get}
use auth_profile_service.Auth.Enums.{UserState, role_value, state_eq}
use auth_profile_service.Auth.Errors.{Error, Result, ok, err}
use auth_profile_service.Auth.User.{can_login}
use auth_profile_service.Database.World.{UserRow, World, Draw, ◌>>=◌}
use auth_profile_service.Database.Redis.{is_revoked, has_key, revoked_key}
use auth_profile_service.Database.Users.{to_domain_user, get_by_id}
use auth_profile_service.Database.Users.Integrity.{find_user}
use auth_profile_service.Security.Settings.{Settings}
use auth_profile_service.Security.Jwt.{Jwt, create_access_token, decode_refresh_token, text_claim}
use auth_profile_service.Sessions.{refresh, truthy_text}

-- The jti of the claims is on the blacklist at the time.
unfoldable pub is_blacklisted : ℕ → Option String → World → Bool
is_blacklisted now none w = false
is_blacklisted now (some jti) w = has_key now (revoked_key jti) w

module _ {Token : Type 0} (jwt : Jwt Token) (s : Settings) where
  -- What a refresh answers where the token decodes to claims with the subject and the jti: refused
  -- if revoked, if the account is gone, or if it is not ACTIVE; and else an access token with the
  -- role that the account has now.
  unfoldable pub answer : Draw → (user_id : String) → Bool → Option UserRow → Result Token
  answer d user_id true found = err (Error.token_error "Refresh token has been revoked.")
  answer d user_id false none = err (Error.user_not_found user_id)
  answer d user_id false (some row) =
      if state_eq row.state UserState.active
      then ok (create_access_token jwt s d row.id (role_value row.role) [])
      else err (Error.token_error "Account is not active.")

  -- A refresh with a token that decodes to claims with a subject and, perhaps, a jti changes
  -- nothing. It is refused if the jti is on the blacklist, if the subject has no account or if the
  -- account is not ACTIVE; otherwise it returns an access token with the role that the account has
  -- now.
  pub refresh_lem :
      (d : Draw) (token : Token) (w : World) (claims : Fields) (user_id : String)
      (jti : Option String)
      → decode_refresh_token jwt s d.now token ≡ ok claims
      → truthy_text (get "jti" claims) ≡ ok jti
      → text_claim "sub" claims ≡ ok user_id
      → refresh jwt s d token w
        ≡ (answer d user_id (is_blacklisted d.now jti w) (find_user user_id w.users), w)
  unfolding refresh ◌>>=◌ answer is_blacklisted get_by_id is_revoked to_domain_user can_login
  refresh_lem d token w claims user_id none decoded jti_is sub_is =
      rw (decoded, jti_is, sub_is) (ground arith)
  refresh_lem d token w claims user_id (some jti) decoded jti_is sub_is =
      rw (decoded, jti_is, sub_is) (ground arith)

  -- A token that does not decode is refused with one message, and nothing changes.
  pub refresh_undecoded :
      (d : Draw) (token : Token) (w : World) (e : Error)
      → decode_refresh_token jwt s d.now token ≡ err e
      → refresh jwt s d token w ≡ (err (Error.token_error "Invalid refresh token."), w)
  unfolding refresh ◌>>=◌
  refresh_undecoded d token w e undecoded = rw undecoded
