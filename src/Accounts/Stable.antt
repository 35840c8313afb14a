-- ===== src/Accounts/Stable.antt =====
-- What every use case on accounts, roles and sessions keeps: whatever the writes of the repository
-- and of the revocation keep.
use auth_profile_service.Common.{ℕ, String, Bool, Option, none, some, List}
use auth_profile_service.Auth.Enums.{Role}
use auth_profile_service.Auth.Events.{DomainEvent}
use auth_profile_service.Auth.RoleRequest.{RoleRequest}
use auth_profile_service.Auth.User.{User}
use auth_profile_service.Database.World.{World, Draw}
use auth_profile_service.Database.Keeps.{Keeps, keeps_rules}
use auth_profile_service.Database.Users.{save, save_role_request, record_login_audit}
use auth_profile_service.Database.Users.Integrity.{
  get_by_id-Keeps, get_by_email-Keeps, get_role_request_by_id-Keeps,
}
use auth_profile_service.Database.Redis.{revoke, is_revoked, set_key}
use auth_profile_service.Security.Settings.{Settings}
use auth_profile_service.Security.Passwords.{Hasher}
use auth_profile_service.Security.Jwt.{Jwt}
use auth_profile_service.Accounts.{
  pull_and_save, register_user, decide_registration, ban_user, grant_role, request_role,
  decide_role_request, seed_unless, seed_super_admin,
}
use auth_profile_service.Sessions.{admit, login, revoked_jti, refresh, revoke_claims, logout}

-- The writes keep the invariant.
pub record Stable (P : World → Type 0) : Type 0 where
  pub on_save : (d : Draw) (u : User) (es : List DomainEvent) → Keeps P (save d u es)
  pub on_save_role_request :
      (d : Draw) (r : RoleRequest) (es : List DomainEvent) → Keeps P (save_role_request d r es)
  pub on_audit :
      (d : Draw) (o : Option String) (ip : String) (b : Bool)
      → Keeps P (record_login_audit d o ip b)
  pub on_set_key : (now : ℕ) (key : String) (ttl : ℕ) → Keeps P (set_key now key ttl)

module _ {P : World → Type 0} (stable : Stable P) where
  save-Stable : (d : Draw) (u : User) (es : List DomainEvent) → Keeps P (save d u es)
  save-Stable = stable.on_save

  save_role_request-Stable :
      (d : Draw) (r : RoleRequest) (es : List DomainEvent) → Keeps P (save_role_request d r es)
  save_role_request-Stable = stable.on_save_role_request

  record_login_audit-Stable :
      (d : Draw) (o : Option String) (ip : String) (b : Bool)
      → Keeps P (record_login_audit d o ip b)
  record_login_audit-Stable = stable.on_audit

  ruleset account_rules = (
    keeps_rules, save-Stable, save_role_request-Stable, record_login_audit-Stable, get_by_id-Keeps,
    get_by_email-Keeps, get_role_request_by_id-Keeps,
  )

  pull_and_save-Stable : (d : Draw) (u : User) → Keeps P (pull_and_save d u)
  unfolding pull_and_save
  pull_and_save-Stable d u = search account_rules

  seed_unless-Stable :
      (s : Settings) (h : Hasher) (salt : String) (d : Draw) (o : Option User)
      → Keeps P (seed_unless s h salt d o)
  unfolding seed_unless
  seed_unless-Stable s h salt d none = search account_rules
  seed_unless-Stable s h salt d (some u) = search account_rules

  revoke-Stable : (now : ℕ) (jti : String) (ttl : ℕ) → Keeps P (revoke now jti ttl)
  unfolding revoke
  revoke-Stable now jti ttl = stable.on_set_key now _ ttl

  is_revoked-Stable : (now : ℕ) (jti : String) → Keeps P (is_revoked now jti)
  unfolding is_revoked
  is_revoked-Stable now jti = record { at_state = λ w h. h }

  ruleset use_case_rules =
      (account_rules, pull_and_save-Stable, seed_unless-Stable, revoke-Stable, is_revoked-Stable)

  pub register_user-Stable :
      (h : Hasher) (salt : String) (d : Draw) (email password name : String)
      → Keeps P (register_user h salt d email password name)
  unfolding register_user
  register_user-Stable h salt d email password name = search use_case_rules depth 8

  pub decide_registration-Stable :
      (d : Draw) (role : Role) (target : String) (b : Bool) (by reason : String)
      → Keeps P (decide_registration d role target b by reason)
  unfolding decide_registration
  decide_registration-Stable d role target b by reason = search use_case_rules depth 8

  pub ban_user-Stable :
      (d : Draw) (role : Role) (target : String) (b : Bool) (by reason : String)
      → Keeps P (ban_user d role target b by reason)
  unfolding ban_user
  ban_user-Stable d role target b by reason = search use_case_rules depth 8

  pub grant_role-Stable :
      (d : Draw) (role : Role) (target : String) (new_role : Role) (by : String)
      → Keeps P (grant_role d role target new_role by)
  unfolding grant_role
  grant_role-Stable d role target new_role by = search use_case_rules depth 8

  pub request_role-Stable :
      (d : Draw) (user_id : String) (role : Role) → Keeps P (request_role d user_id role)
  unfolding request_role
  request_role-Stable d user_id role = search use_case_rules depth 8

  pub decide_role_request-Stable :
      (d : Draw) (role : Role) (id : String) (b : Bool) (by note : String)
      → Keeps P (decide_role_request d role id b by note)
  unfolding decide_role_request
  decide_role_request-Stable d role id b by note = search use_case_rules depth 12

  pub seed_super_admin-Stable :
      (s : Settings) (h : Hasher) (salt : String) (d : Draw) → Keeps P (seed_super_admin s h salt d)
  unfolding seed_super_admin
  seed_super_admin-Stable s h salt d = search use_case_rules depth 8

  module _ {Token : Type 0} (jwt : Jwt Token) (s : Settings) where
    revoked_jti-Stable : (now : ℕ) (jti : Option String) → Keeps P (revoked_jti jwt s now jti)
    unfolding revoked_jti
    revoked_jti-Stable now none = search use_case_rules
    revoked_jti-Stable now (some jti) = search use_case_rules

    revoke_claims-Stable :
        (now : ℕ) (jti : Option String) (exp : Option ℕ) → Keeps P (revoke_claims jwt s now jti exp)
    unfolding revoke_claims
    revoke_claims-Stable now none exp = search use_case_rules
    revoke_claims-Stable now (some jti) none = search use_case_rules
    revoke_claims-Stable now (some jti) (some exp) = search use_case_rules

    admit-Stable : (d : Draw) (ip : String) (u : User) → Keeps P (admit jwt s d ip u)
    unfolding admit
    admit-Stable d ip u = search use_case_rules depth 8

    pub login-Stable :
        (h : Hasher) (d : Draw) (email password ip : String)
        → Keeps P (login jwt s h d email password ip)
    unfolding login
    login-Stable h d email password ip = search (use_case_rules, admit-Stable) depth 8

    pub refresh-Stable : (d : Draw) (token : Token) → Keeps P (refresh jwt s d token)
    unfolding refresh
    refresh-Stable d token = search (use_case_rules, revoked_jti-Stable) depth 12

    pub logout-Stable : (d : Draw) (token : Token) → Keeps P (logout jwt s d token)
    unfolding logout
    logout-Stable d token = search (use_case_rules, revoke_claims-Stable) depth 8
