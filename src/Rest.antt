-- ===== src/Rest.antt =====
-- app/core: exceptions.py, which makes a status of what a route raises, and security_deps.py, which
-- says who calls. What FastAPI and slowapi raise by themselves is a parameter: where no credentials
-- came, where a body or a query does not validate, and where the caller is over its rate.
pub mod Accounts
pub mod Admin
pub mod Profiles
pub mod Callers
pub mod Guards
pub mod Pages
pub mod Bounds
use Prim.Native.String.{◌++◌}
use auth_profile_service.Common.{
  ℕ, String, Bool, false, ◌||◌, Option, none, some, List, [], ◌∷◌, ◌==◌, if◌then◌else◌,
}
use auth_profile_service.Json.{Fields}
use auth_profile_service.Auth.Enums.{Role, role_eq, role_value, role_of_value}
use auth_profile_service.Auth.Errors.{Error, Result, ok, err, ◌>>=◌}
use auth_profile_service.Auth.Messages.{message}
use auth_profile_service.Dto.{Content}
use auth_profile_service.Security.Settings.{Settings}
use auth_profile_service.Security.Jwt.{Jwt, decode_access_token, text_claim}

pub record Framework : Type 0 where
  pub no_credentials : Error
  pub invalid_request : Error
  pub rate_exceeded : Error

pub record CurrentUser : Type 0 where
  pub user_id : String
  pub role : Role

-- `except TokenError`: that is the only error of the decoding.
abbrev pub as_unauthorized : Result Fields → Result Fields
as_unauthorized (ok claims) = ok claims
as_unauthorized (err e) = err (Error.http_exception 401 (message e))

-- `Role(text)`
unfoldable pub role_from : String → Result Role
role_from text = elim (role_of_value text) [ none ↦ err Error.value_error | some role ↦ ok role ]

-- `CurrentUser(user_id=claims["sub"], role=Role(claims["role"]))`
unfoldable pub user_of_claims : Fields → Result CurrentUser
unfolding role_from
user_of_claims claims = do
  user_id ← text_claim "sub" claims
  text ← text_claim "role" claims
  role ← role_from text
  ok (record { user_id = user_id; role = role })

-- `current_user.role in allowed`
unfoldable pub is_allowed : Role → List Role → Bool
is_allowed role [] = false
is_allowed role (r ∷ rs) = role_eq role r || is_allowed role rs

-- `require_roles`
unfoldable pub require_roles : List Role → CurrentUser → Result CurrentUser
unfolding is_allowed
require_roles allowed user =
    if is_allowed user.role allowed
    then ok user
    else err (
        Error.http_exception 403
          ("Role '" ++ (role_value user.role ++ "' is not permitted to perform this action.")))

module _ {Token : Type 0} (jwt : Jwt Token) (s : Settings) (fw : Framework) where
  unfoldable pub get_current_user : ℕ → Option Token → Result CurrentUser
  unfolding user_of_claims
  get_current_user now none = err fw.no_credentials
  get_current_user now (some token) = do
    claims ← as_unauthorized (decode_access_token jwt s now token)
    user_of_claims claims

  -- The caller of a protected route: the dependency on the roles comes first, and reads the same
  -- token.
  unfoldable pub caller : List Role → ℕ → Option Token → Result CurrentUser
  unfolding get_current_user require_roles
  caller allowed now bearer = do user ← get_current_user now bearer; require_roles allowed user

-- `except TokenError: return None`
abbrev pub optional : Result Fields → Result (Option CurrentUser)
optional (err e) = ok none
optional (ok claims) = do user ← user_of_claims claims; ok (some user)

module _ {Token : Type 0} (jwt : Jwt Token) (s : Settings) where
  unfoldable pub get_optional_user : ℕ → Option Token → Result (Option CurrentUser)
  unfolding user_of_claims
  get_optional_user now none = ok none
  get_optional_user now (some token) = optional (decode_access_token jwt s now token)

-- `_STATUS_MAP`, and 500 for what is no error of the domain.
unfoldable pub status_of : Error → ℕ
status_of (Error.duplicate_email email) = 409
status_of Error.invalid_credentials = 401
status_of (Error.account_not_usable state) = 403
status_of (Error.token_error text) = 401
status_of (Error.invalid_state_transition state action) = 409
status_of (Error.invalid_role_transition text) = 403
status_of (Error.user_not_found id) = 404
status_of (Error.role_request_not_found id) = 404
status_of (Error.role_request_already_decided id) = 409
status_of (Error.profile_not_found id) = 404
status_of (Error.recipient_not_found query) = 404
status_of (Error.recipient_not_unique query n) = 409
status_of (Error.http_exception code text) = code
status_of _ = 500

-- A response: its status, and its body.
pub record Response (Token : Type 0) : Type 0 where
  pub status : ℕ
  pub content : Content Token

-- The response of a route that answers `success` where it returns; the exception handlers make one
-- of what it raises.
unfoldable pub respond : {Token : Type 0} → (success : ℕ) → Result (Content Token) → Response Token
unfolding status_of message
respond success (ok content) = record { status = success; content = content }
respond success (err e) = record { status = status_of e; content = Content.detail (message e) }
