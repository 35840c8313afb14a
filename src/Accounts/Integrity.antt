-- ===== src/Accounts/Integrity.antt =====
-- Every use case on accounts, roles and sessions keeps the account tables sound.
use auth_profile_service.Common.{ℕ, String, Bool, List, [], ◌∷◌}
use auth_profile_service.Auth.Enums.{Role}
use auth_profile_service.Database.World.{World, Draw}
use auth_profile_service.Database.Keeps.{Keeps}
use auth_profile_service.Database.Users.Integrity.{IsSound}
use auth_profile_service.Database.Redis.{set_key}
use auth_profile_service.Security.Settings.{Settings}
use auth_profile_service.Security.Passwords.{Hasher}
use auth_profile_service.Security.Jwt.{Jwt}
use auth_profile_service.Accounts.Stable.{
  Stable, register_user-Stable, decide_registration-Stable, ban_user-Stable, grant_role-Stable,
  request_role-Stable, decide_role_request-Stable, seed_super_admin-Stable, login-Stable,
  refresh-Stable, logout-Stable,
}
use auth_profile_service.Database.Users.Integrity.{
  save-IsSound, save_role_request-IsSound, record_login_audit-IsSound,
}
use auth_profile_service.Accounts.{
  register_user, decide_registration, ban_user, grant_role, request_role, decide_role_request,
  seed_super_admin,
}
use auth_profile_service.Sessions.{login, refresh, logout}

-- A call of a use case, with the arguments that a controller passes it.
pub data UseCase (Token : Type 0) : Type 0 where
  register : (salt email password display_name : String) → UseCase Token
  decide : Role → (target : String) → Bool → (by reason : String) → UseCase Token
  ban : Role → (target : String) → Bool → (by reason : String) → UseCase Token
  grant : Role → (target : String) → Role → (by : String) → UseCase Token
  request : (user_id : String) → Role → UseCase Token
  decide_request : Role → (request_id : String) → Bool → (by note : String) → UseCase Token
  sign_in : (email password ip : String) → UseCase Token
  refresh_session : Token → UseCase Token
  sign_out : Token → UseCase Token
  seed : (salt : String) → UseCase Token

module _ {Token : Type 0} (jwt : Jwt Token) (s : Settings) (h : Hasher) where
  -- The state after a use case, whether it returned or raised.
  unfoldable pub perform : Draw → UseCase Token → World → World
  perform d (register salt email password name) w = (register_user h salt d email password name w).1
  perform d (decide role target approve by reason) w =
      (decide_registration d role target approve by reason w).1
  perform d (ban role target b by reason) w = (ban_user d role target b by reason w).1
  perform d (grant role target new_role by) w = (grant_role d role target new_role by w).1
  perform d (request user_id role) w = (request_role d user_id role w).1
  perform d (decide_request role id approve by note) w =
      (decide_role_request d role id approve by note w).1
  perform d (sign_in email password ip) w = (login jwt s h d email password ip w).1
  perform d (refresh_session token) w = (refresh jwt s d token w).1
  perform d (sign_out token) w = (logout jwt s d token w).1
  perform d (seed salt) w = (seed_super_admin s h salt d w).1

  unfoldable pub serve : List (Draw × UseCase Token) → World → World
  serve [] w = w
  serve ((d, c) ∷ rest) w = serve rest (perform d c w)

set_key-IsSound : (now : ℕ) (key : String) (ttl : ℕ) → Keeps IsSound (set_key now key ttl)
unfolding set_key
set_key-IsSound now key ttl = record {
  at_state = λ w h. record {
    user_ids = h.user_ids;
    emails = h.emails;
    request_ids = h.request_ids;
    owners = h.owners;
  };
}

pub IsSound-Stable : Stable IsSound
IsSound-Stable = record {
  on_save = save-IsSound;
  on_save_role_request = save_role_request-IsSound;
  on_audit = record_login_audit-IsSound;
  on_set_key = set_key-IsSound;
}

module _ {Token : Type 0} (jwt : Jwt Token) (s : Settings) (h : Hasher) where
  -- A use case keeps what every write keeps, whether it returned or raised.
  pub perform-Stable :
      {P : World → Type 0} (stable : Stable P) (d : Draw) (c : UseCase Token) (w : World)
      → P w
      → P (perform jwt s h d c w)
  unfolding perform
  perform-Stable stable d (register salt email password name) w =
      (register_user-Stable stable h salt d email password name).at_state w
  perform-Stable stable d (decide role target approve by reason) w =
      (decide_registration-Stable stable d role target approve by reason).at_state w
  perform-Stable stable d (ban role target b by reason) w =
      (ban_user-Stable stable d role target b by reason).at_state w
  perform-Stable stable d (grant role target new_role by) w =
      (grant_role-Stable stable d role target new_role by).at_state w
  perform-Stable stable d (request user_id role) w =
      (request_role-Stable stable d user_id role).at_state w
  perform-Stable stable d (decide_request role id approve by note) w =
      (decide_role_request-Stable stable d role id approve by note).at_state w
  perform-Stable stable d (sign_in email password ip) w =
      (login-Stable stable jwt s h d email password ip).at_state w
  perform-Stable stable d (refresh_session token) w =
      (refresh-Stable stable jwt s d token).at_state w
  perform-Stable stable d (sign_out token) w = (logout-Stable stable jwt s d token).at_state w
  perform-Stable stable d (seed salt) w = (seed_super_admin-Stable stable s h salt d).at_state w

  pub perform-IsSound :
      (d : Draw) (c : UseCase Token) (w : World) → IsSound w → IsSound (perform jwt s h d c w)
  perform-IsSound = perform-Stable IsSound-Stable

  -- From sound tables, after any sequence of use cases, whether each returned or raised: ids and
  -- emails of accounts are unique, ids of role requests are unique, and every role request belongs
  -- to an account.
  pub serve-IsSound :
      (calls : List (Draw × UseCase Token)) (w : World)
      → IsSound w
      → IsSound (serve jwt s h calls w)
  unfolding serve
  serve-IsSound [] w sound = sound
  serve-IsSound ((d, c) ∷ rest) w sound =
      serve-IsSound rest (perform jwt s h d c w) (perform-IsSound d c w sound)
