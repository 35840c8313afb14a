-- ===== src/Sessions/Login.antt =====
-- login.py: what a sign-in answers and records, on every branch.
use auth_profile_service.Common.{
  String, ◌≡◌, refl, Bool, true, false, Option, none, some, [], ◌∷◌, ◌++◌, arith, if◌then◌else◌,
  Option-cases, inl, inr,
}
use auth_profile_service.Auth.Enums.{UserState, role_value, state_value, state_eq}
use auth_profile_service.Auth.Errors.{Error, Result, ok, err}
use auth_profile_service.Auth.User.{normalise, can_login}
use auth_profile_service.Database.World.{UserRow, World, Draw, ◌>>=◌}
use auth_profile_service.Database.Users.{to_domain_user, record_login_audit}
use auth_profile_service.Database.Users.Integrity.{IsSound, find_email}
use auth_profile_service.Database.Users.Lookups.{get_by_email_lem}
use auth_profile_service.Security.Settings.{Settings}
use auth_profile_service.Security.Passwords.{Hasher}
use auth_profile_service.Security.Jwt.{Jwt, create_access_token, create_refresh_token}
use auth_profile_service.Sessions.{login}

-- The state with one more row of the audit.
unfoldable pub audited : Draw → Option String → String → Bool → World → World
audited d user_id ip success w = record w {
  db = record w.db {
    login_audit =
        w.login_audit
        ++ record { id = d.uuid 0; user_id = user_id; ip = ip; success = success; at_time = d.now }
          ∷ [];
  };
}

module _ {Token : Type 0} (jwt : Jwt Token) (s : Settings) (h : Hasher) where
  -- What a sign-in does where `found` is the account with the email.
  unfoldable pub outcome :
      Draw → (password ip : String) → Option UserRow → World → Result (Token × Token) × World
  outcome d password ip none w = (err Error.invalid_credentials, audited d none ip false w)
  outcome d password ip (some row) w =
      if h.verify password row.password_hash
      then (if state_eq row.state UserState.active
          then (
            ok (
              create_access_token jwt s d row.id (role_value row.role) [],
              create_refresh_token jwt s d row.id,
            ),
            audited d (some row.id) ip true w,
          )
          else (
            err (Error.account_not_usable (state_value row.state)),
            audited d (some row.id) ip false w,
          ))
      else (err Error.invalid_credentials, audited d (some row.id) ip false w)

  -- On sound tables, a sign-in looks up the account by the normalised email. It returns a pair of
  -- tokens for that account exactly when the password verifies and the account is ACTIVE; it
  -- raises AccountNotUsable with the state only after the password has verified, and
  -- InvalidCredentials otherwise. On every branch it adds one audit row, whose `success` says
  -- whether tokens were returned, and changes nothing else.
  pub login_lem :
      (d : Draw) (email password ip : String) (w : World)
      → IsSound w
      → login jwt s h d email password ip w
        ≡ outcome d password ip (find_email (normalise email) w.users) w
  unfolding login outcome audited record_login_audit ◌>>=◌ can_login to_domain_user
  login_lem d email password ip w sound =
      elim (Option-cases (find_email (normalise email) w.users)) [
        | inl e ↦ rw (get_by_email_lem (normalise email) w sound, e) refl
        | inr (row, e) ↦ rw (get_by_email_lem (normalise email) w sound, e) (ground arith)
      ]
