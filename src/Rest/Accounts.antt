-- ===== src/Rest/Accounts.antt =====
-- app/presentation/rest/auth_controller.py: registration, sign-in, refresh and sign-out. What
-- email-validator makes of an address, and what slowapi says of the caller's rate, are parameters.
use auth_profile_service.Common.{String, Bool, not, Option, none, some, if◌then◌else◌}
use auth_profile_service.Auth.Enums.{state_value}
use auth_profile_service.Database.World.{Draw, Exec, pure, raise, or_raise, ◌>>=◌, ◌>>◌}
use auth_profile_service.Dto.{Content, RegisterRequest, LoginRequest, fits_registration}
use auth_profile_service.Rest.{Framework}
use auth_profile_service.Security.Settings.{Settings}
use auth_profile_service.Security.Jwt.{Jwt}
use auth_profile_service.Security.Passwords.{Hasher}
use auth_profile_service.Accounts.{register_user}
use auth_profile_service.Sessions.{login, refresh, logout}

-- What is said of a request before the route's body runs: the address that `EmailStr` leaves of a
-- text, and whether the caller is within its rate.
pub record Checks : Type 0 where
  pub email_str : String → Option String
  pub within_rate : Bool

module _ {Token : Type 0} (jwt : Jwt Token) (s : Settings) (h : Hasher) (fw : Framework) where
  -- `@limiter.limit(…)`, around the body of a route.
  unfoldable pub limited : Checks → Exec (Content Token) → Exec (Content Token)
  limited checks body = if checks.within_rate then body else raise fw.rate_exceeded

  unfoldable pub register_route :
      Checks → (salt : String) → Draw → RegisterRequest → Exec (Content Token)
  unfolding limited fits_registration
  register_route checks salt d body = do
    email ← or_raise (checks.email_str body.email) fw.invalid_request
    if not (fits_registration body)
        then raise fw.invalid_request
        else limited checks (do
          user ← register_user h salt d email body.password body.display_name
          pure (
              Content.registered
                (record { user_id = user.id; email = user.email; state = state_value user.state })))

  abbrev bearer_pair : Token → Token → Content Token
  bearer_pair access_token refresh_token =
      Content.token_pair (record {
        access_token = access_token;
        refresh_token = refresh_token;
        token_type = "bearer";
      })

  unfoldable pub login_route :
      Checks → (client_ip : Option String) → Draw → LoginRequest → Exec (Content Token)
  unfolding limited
  login_route checks client_ip d body = do
    email ← or_raise (checks.email_str body.email) fw.invalid_request
    limited checks (do
      pair ←
          login jwt s h d email body.password (elim client_ip [ none ↦ "unknown" | some ip ↦ ip ])
      pure (bearer_pair pair.0 pair.1))

  unfoldable pub refresh_route : Draw → (refresh_token : Token) → Exec (Content Token)
  refresh_route d refresh_token = do
    access_token ← refresh jwt s d refresh_token
    pure (bearer_pair access_token refresh_token)

  unfoldable pub logout_route : Draw → (refresh_token : Token) → Exec (Content Token)
  logout_route d refresh_token = do logout jwt s d refresh_token; pure Content.nothing
