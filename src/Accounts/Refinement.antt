-- ===== src/Accounts/Refinement.antt =====
-- Every use case, and every sequence of them, against the machine of one account.
use mathlib.Core.Option
use mathlib.Core.Path.{subst}
use auth_profile_service.Common.{
  ℕ, String, ◌≡◌, refl, ap, sym, inl, inr, Bool, Option, none, some, List, [], ◌∷◌, Option-cases,
}
use auth_profile_service.Auth.Enums.{Role}
use auth_profile_service.Auth.Events.{DomainEvent}
use auth_profile_service.Auth.RoleRequest.{RoleRequest}
use auth_profile_service.Security.Settings.{Settings}
use auth_profile_service.Security.Passwords.{Hasher}
use auth_profile_service.Auth.User.{User}
use auth_profile_service.Database.World.{UserRow, World, Draw, Exec}
use auth_profile_service.Database.Users.{save_role_request, store_role_request}
use auth_profile_service.Database.Users.Integrity.{IsSound, find_user}
use auth_profile_service.Database.Users.Lookups.{find_request}
use auth_profile_service.Accounts.Integrity.{UseCase, perform, serve}
use auth_profile_service.Accounts.Views.{Account, Step, seen, view}
use auth_profile_service.Accounts.Steps.{
  ban_user-Step, decide_registration-Step, grant_role-Step, decide_role_request-Step,
  register_user-Step, seed_super_admin-Step,
}
use auth_profile_service.Security.Jwt.{Jwt}
use auth_profile_service.Accounts.Integrity.{perform-IsSound}
use auth_profile_service.Database.Keeps.{Keeps, keeps_rules}
use auth_profile_service.Database.Redis.{revoke, is_revoked, set_key}
use auth_profile_service.Database.Users.{record_login_audit}
use auth_profile_service.Database.Users.Integrity.{get_by_id-Keeps, get_by_email-Keeps}
use auth_profile_service.Accounts.{request_role}
use auth_profile_service.Sessions.{admit, login, revoked_jti, refresh, revoke_claims, logout}

-- The accounts of the state are those of a given list.
module _ (us : List UserRow) where
  abbrev HasUsers : World → Type 0
  HasUsers w = w.users ≡ us

  save_role_request-quiet :
      (d : Draw) (r : RoleRequest) (es : List DomainEvent)
      → Keeps HasUsers (save_role_request d r es)
  unfolding save_role_request store_role_request
  save_role_request-quiet d r es = record {
    at_state = λ w h. elim (Option-cases (find_request r.id w.role_requests)) [
      | inl e ↦ elim (Option-cases (find_user r.user_id w.users)) [
        | inl f ↦ rw (e, f, save_role_request) h
        | inr (owner, f) ↦ rw (e, f, save_role_request) h
      ]
      | inr (row, e) ↦ rw (e, save_role_request) h
    ];
  }

  record_login_audit-quiet :
      (d : Draw) (o : Option String) (ip : String) (b : Bool)
      → Keeps HasUsers (record_login_audit d o ip b)
  unfolding record_login_audit
  record_login_audit-quiet d o ip b = record { at_state = λ w h. h }

  revoke-quiet : (now : ℕ) (jti : String) (ttl : ℕ) → Keeps HasUsers (revoke now jti ttl)
  unfolding revoke set_key
  revoke-quiet now jti ttl = record { at_state = λ w h. h }

  is_revoked-quiet : (now : ℕ) (jti : String) → Keeps HasUsers (is_revoked now jti)
  unfolding is_revoked
  is_revoked-quiet now jti = record { at_state = λ w h. h }

  ruleset quiet_rules = (
    keeps_rules, save_role_request-quiet, record_login_audit-quiet, revoke-quiet, is_revoked-quiet,
    get_by_id-Keeps, get_by_email-Keeps,
  )

  request_role-quiet :
      (d : Draw) (user_id : String) (role : Role) → Keeps HasUsers (request_role d user_id role)
  unfolding request_role
  request_role-quiet d user_id role = search quiet_rules depth 8

  module _ {Token : Type 0} (jwt : Jwt Token) (s : Settings) where
    revoked_jti-quiet : (now : ℕ) (jti : Option String) → Keeps HasUsers (revoked_jti jwt s now jti)
    unfolding revoked_jti
    revoked_jti-quiet now none = search quiet_rules
    revoked_jti-quiet now (some jti) = search quiet_rules

    revoke_claims-quiet :
        (now : ℕ) (jti : Option String) (exp : Option ℕ)
        → Keeps HasUsers (revoke_claims jwt s now jti exp)
    unfolding revoke_claims
    revoke_claims-quiet now none exp = search quiet_rules
    revoke_claims-quiet now (some jti) none = search quiet_rules
    revoke_claims-quiet now (some jti) (some exp) = search quiet_rules

    admit-quiet : (d : Draw) (ip : String) (u : User) → Keeps HasUsers (admit jwt s d ip u)
    unfolding admit
    admit-quiet d ip u = search quiet_rules depth 8

    login-quiet :
        (h : Hasher) (d : Draw) (email password ip : String)
        → Keeps HasUsers (login jwt s h d email password ip)
    unfolding login
    login-quiet h d email password ip = search (quiet_rules, admit-quiet) depth 8

    refresh-quiet : (d : Draw) (token : Token) → Keeps HasUsers (refresh jwt s d token)
    unfolding refresh
    refresh-quiet d token = search (quiet_rules, revoked_jti-quiet) depth 12

    logout-quiet : (d : Draw) (token : Token) → Keeps HasUsers (logout jwt s d token)
    unfolding logout
    logout-quiet d token = search (quiet_rules, revoke_claims-quiet) depth 8

module _ {Token : Type 0} where
  -- A call that leaves the accounts alone lets every account stay.
  quiet-Step :
      {A : Type 0} (c : UseCase Token) (k : String) (m : Exec A) (w : World)
      → Keeps (HasUsers w.users) m
      → Step c k (view k w) (view k (m w).1)
  quiet-Step c k m w quiet =
      subst (Step c k (view k w))
        (sym (ap (λ us. Option.map seen (find_user k us)) (quiet.at_state w refl))) Step.stay

  -- The runs of the machine of one account.
  pub data Run (k : String) : Option Account → List (UseCase Token) → Option Account → Type 0 where
    done : {a : Option Account} → Run k a [] a
    then_step :
        {c : UseCase Token} {cs : List (UseCase Token)} {a b z : Option Account}
        → Step c k a b
        → Run k b cs z
        → Run k a (c ∷ cs) z

  abbrev pub cases : List (Draw × UseCase Token) → List (UseCase Token)
  cases [] = []
  cases ((d, c) ∷ rest) = c ∷ cases rest

module _ {Token : Type 0} (jwt : Jwt Token) (s : Settings) (h : Hasher) where
  pub perform-Step :
      (k : String) (d : Draw) (c : UseCase Token) (w : World)
      → IsSound w
      → find_user (d.uuid 0) w.users ≡ none
      → Step c k (view k w) (view k (perform jwt s h d c w))
  unfolding perform
  perform-Step k d (UseCase.register salt email password name) w sound fresh =
      register_user-Step k d w h salt email password name sound fresh
  perform-Step k d (UseCase.decide actor target b by reason) w sound fresh =
      decide_registration-Step k d actor target w b by reason
  perform-Step k d (UseCase.ban actor target b by reason) w sound fresh =
      ban_user-Step k d actor target w b by reason
  perform-Step k d (UseCase.grant actor target new_role by) w sound fresh =
      grant_role-Step k d actor target w new_role by
  perform-Step k d (UseCase.request user_id role) w sound fresh =
      quiet-Step _ k _ w (request_role-quiet w.users d user_id role)
  perform-Step k d (UseCase.decide_request actor id b by note) w sound fresh =
      decide_role_request-Step k d w actor id b by note
  perform-Step k d (UseCase.sign_in email password ip) w sound fresh =
      quiet-Step _ k _ w (login-quiet w.users jwt s h d email password ip)
  perform-Step k d (UseCase.refresh_session token) w sound fresh =
      quiet-Step _ k _ w (refresh-quiet w.users jwt s d token)
  perform-Step k d (UseCase.sign_out token) w sound fresh =
      quiet-Step _ k _ w (logout-quiet w.users jwt s d token)
  perform-Step k d (UseCase.seed salt) w sound fresh =
      seed_super_admin-Step k d w s h salt sound fresh

  -- Every call draws an id that no account has when it is made.
  abbrev pub AllFresh : List (Draw × UseCase Token) → World → Type 0
  AllFresh [] w = Unit
  AllFresh ((d, c) ∷ rest) w =
      (find_user (d.uuid 0) w.users ≡ none) × AllFresh rest (perform jwt s h d c w)

  -- From sound tables, and with new ids, every sequence of use cases refines the machine of one
  -- account, for every account: it is opened, as ACTIVE, by a registration as BASIC_USER or by the
  -- seed as ADMIN; SUPPORT and ADMIN move its state, by a decision from PENDING, by a ban from ACTIVE
  -- and by its lifting from BANNED; its role is changed by an ADMIN's grant or by an approval of
  -- SUPPORT or ADMIN; and nothing else is seen of it.
  pub serve-Run :
      (k : String) (calls : List (Draw × UseCase Token)) (w : World)
      → IsSound w
      → AllFresh calls w
      → Run k (view k w) (cases calls) (view k (serve jwt s h calls w))
  unfolding serve
  serve-Run k [] w sound fresh = Run.done
  serve-Run k ((d, c) ∷ rest) w sound fresh =
      Run.then_step (perform-Step k d c w sound fresh.0)
        (serve-Run k rest (perform jwt s h d c w) (perform-IsSound jwt s h d c w sound) fresh.1)
