-- ===== src/Sessions.antt =====
-- app/application/use_cases/auth: login.py, refresh_token.py and logout.py.
pub mod Login
pub mod Logout
pub mod Refresh
pub mod Tokens
use Prim.Native.Nat.{max}
use auth_profile_service.Common.{
  ℕ, zero, suc, ◌-◌, ◌*◌, ◌/◌, String, Bool, true, false, not, Option, none, some, [],
  if◌then◌else◌,
}
use auth_profile_service.Json.{Json, Fields, get, is_truthy}
use auth_profile_service.Json.Int.{ℤ}
use auth_profile_service.Auth.Enums.{role_value, state_value}
use auth_profile_service.Auth.Errors.{Error, Result, ok, err}
use auth_profile_service.Auth.User.{User, normalise, can_login}
use auth_profile_service.Database.World.{
  World, Draw, Exec, pure, raise, lift, or_raise, ◌>>=◌, ◌>>◌,
}
use auth_profile_service.Database.Redis.{revoke, is_revoked}
use auth_profile_service.Database.Users.{get_by_id, get_by_email, record_login_audit}
use auth_profile_service.Security.Settings.{Settings}
use auth_profile_service.Security.Passwords.{Hasher}
use auth_profile_service.Security.Jwt.{
  Jwt, create_access_token, create_refresh_token, decode_refresh_token, text_claim,
}

-- `claims.get(key)` where it is only tested and then used as a text. A claim that is neither a text
-- nor false is refused here; the code would print it.
unfoldable pub truthy_text : Option Json → Result (Option String)
truthy_text none = ok none
truthy_text (some v) =
    if not (is_truthy v)
    then ok none
    else elim v [ Json.str s ↦ ok (some s) | other ↦ err Error.value_error ]

-- `claims.get("exp")` where it is tested and then subtracted from. A time before 1970 is long past,
-- as the time 0 is.
abbrev as_number : Json → Result (Option ℕ)
as_number (Json.num (ℤ.pos n)) = ok (some n)
as_number (Json.num (ℤ.negsuc n)) = ok (some zero)
as_number _ = err Error.value_error

unfoldable pub truthy_number : Option Json → Result (Option ℕ)
truthy_number none = ok none
truthy_number (some v) = if not (is_truthy v) then ok none else as_number v

-- `user is not None and user.verify_password(password, hasher)`
unfoldable pub password_matches : Hasher → String → Option User → Bool
password_matches h password none = false
password_matches h password (some user) = h.verify password user.password_hash

abbrev pub id_of : Option User → Option String
id_of none = none
id_of (some user) = some user.id

module _ {Token : Type 0} (jwt : Jwt Token) (s : Settings) where
  -- The part of `LoginUseCase.execute` after the password has matched.
  unfoldable pub admit : Draw → (ip : String) → User → Exec (Token × Token)
  admit d ip user =
      if not (can_login user)
      then (do
        record_login_audit d (some user.id) ip false
        raise (Error.account_not_usable (state_value user.state)))
      else do
        record_login_audit d (some user.id) ip true
        pure (
          create_access_token jwt s d user.id (role_value user.role) [],
          create_refresh_token jwt s d user.id,
        )

  unfoldable pub login : Hasher → Draw → (email password ip : String) → Exec (Token × Token)
  unfolding admit password_matches
  login h d email password ip = do
    found ← get_by_email (normalise email)
    if not (password_matches h password found)
        then (do record_login_audit d (id_of found) ip false; raise Error.invalid_credentials)
        else do user ← or_raise found Error.attribute_error; admit d ip user

  -- `except Exception` around the decoding.
  abbrev as_token_error : Result Fields → Result Fields
  as_token_error (ok claims) = ok claims
  as_token_error (err e) = err (Error.token_error "Invalid refresh token.")

  -- `jti and await blacklist.is_revoked(jti)`
  unfoldable pub revoked_jti : ℕ → Option String → Exec Bool
  revoked_jti now none = pure false
  revoked_jti now (some jti) = is_revoked now jti

  unfoldable pub refresh : Draw → Token → Exec Token
  unfolding revoked_jti
  refresh d token = do
    claims ← lift (as_token_error (decode_refresh_token jwt s d.now token))
    jti ← lift (truthy_text (get "jti" claims))
    revoked ← revoked_jti d.now jti
    if revoked then raise (Error.token_error "Refresh token has been revoked.") else do
      user_id ← lift (text_claim "sub" claims)
      found ← get_by_id user_id
      user ← or_raise found (Error.user_not_found user_id)
      if not (can_login user)
          then raise (Error.token_error "Account is not active.")
          else pure (create_access_token jwt s d user.id (role_value user.role) [])

  -- The two claims that `logout` needs, or nothing to do.
  unfoldable pub revoke_claims : ℕ → Option String → Option ℕ → Exec (Unit {0})
  revoke_claims now none exp = pure tt
  revoke_claims now (some jti) none = pure tt
  revoke_claims now (some jti) (some exp) = revoke now jti (max ((exp * 1000 - now) / 1000) 1)

  unfoldable pub logout : Draw → Token → Exec (Unit {0})
  unfolding revoke_claims
  logout d token = do
    claims ← lift (decode_refresh_token jwt s d.now token)
    jti ← lift (truthy_text (get "jti" claims))
    exp ← lift (truthy_number (get "exp" claims))
    revoke_claims d.now jti exp
