-- ===== src/Accounts.antt =====
-- app/application/use_cases/auth: the use cases that change accounts and roles, and
-- app/infrastructure/db/bootstrap.py.
pub mod Stable
pub mod Integrity
pub mod Roles
pub mod Escalation
pub mod Seed
pub mod Bans
pub mod Registration
pub mod Views
pub mod Steps
pub mod Refinement
use Prim.Native.String.{◌++◌}
use auth_profile_service.Common.{
  String, Bool, true, false, not, Option, none, some, [], ◌∷◌, if◌then◌else◌,
}
use auth_profile_service.Auth.Enums.{Role, role_value}
use auth_profile_service.Auth.Errors.{Error, Result, ok, err}
use auth_profile_service.Auth.Events.{DomainEvent}
use auth_profile_service.Auth.RolePolicy.{
  can_request, assert_can_grant, assert_can_decide_role_request, assert_can_ban,
  assert_can_approve_registration,
}
use auth_profile_service.Auth.RoleRequest
use auth_profile_service.Auth.RoleRequest.{RoleRequest}
use auth_profile_service.Auth.User
use auth_profile_service.Auth.User.{User, normalise, change_role, pull_events}
use auth_profile_service.Database.World.{
  World, Draw, Exec, pure, raise, lift, or_raise, raise_if_found, ◌>>=◌, ◌>>◌,
}
use auth_profile_service.Database.Users.{
  get_by_id, get_by_email, save, get_role_request_by_id, save_role_request,
}
use auth_profile_service.Security.Settings.{Settings}
use auth_profile_service.Security.Passwords.{Hasher}

-- `events = user.pull_events(); await repo.save(user, events)`
unfoldable pub pull_and_save : Draw → User → Exec (Unit {0})
unfolding pull_events
pull_and_save d user = let (saved, events) = pull_events user in save d saved events

-- `RegisterUserUseCase.execute`; `uuid 0` is the account's id, `salt` the one that hashing draws.
unfoldable pub register_user :
    Hasher → (salt : String) → Draw → (email password display_name : String) → Exec User
unfolding pull_and_save
register_user h salt d email password display_name = do
  existing ← get_by_email (normalise email)
  raise_if_found existing (Error.duplicate_email email)
  let user = User.register (d.uuid 0) d.now email (h.hash salt password) display_name
  pull_and_save d user
  pure (pull_events user).0

-- `ApproveRegistrationUseCase.execute`
unfoldable pub decide_registration :
    Draw → Role → (target_user_id : String) → Bool → (decided_by reason : String) → Exec (Unit {0})
unfolding pull_and_save
decide_registration d actor_role target_user_id approve decided_by reason = do
  lift (assert_can_approve_registration actor_role)
  found ← get_by_id target_user_id
  user ← or_raise found (Error.user_not_found target_user_id)
  decided ← lift (
      if approve
      then User.approve_registration decided_by user
      else User.reject_registration decided_by reason user)
  pull_and_save d decided

-- `BanUserUseCase.execute`
unfoldable pub ban_user :
    Draw → Role → (target_user_id : String) → Bool → (actor_id reason : String) → Exec (Unit {0})
unfolding pull_and_save
ban_user d actor_role target_user_id ban actor_id reason = do
  lift (assert_can_ban actor_role)
  found ← get_by_id target_user_id
  user ← or_raise found (Error.user_not_found target_user_id)
  decided ← lift (if ban then User.ban actor_id reason user else User.unban actor_id user)
  pull_and_save d decided

-- `GrantRoleUseCase.execute`
unfoldable pub grant_role :
    Draw → Role → (target_user_id : String) → Role → (granted_by : String) → Exec (Unit {0})
unfolding pull_and_save
grant_role d actor_role target_user_id new_role granted_by = do
  lift (assert_can_grant actor_role new_role)
  found ← get_by_id target_user_id
  user ← or_raise found (Error.user_not_found target_user_id)
  pull_and_save d (change_role new_role granted_by user)

abbrev cannot_request : Role → Role → String
cannot_request current requested =
    "User with role '"
    ++ (role_value current ++ ("' cannot request role '" ++ (role_value requested ++ "'.")))

-- `RequestRoleUseCase.execute`; `uuid 0` is the request's id.
unfoldable pub request_role : Draw → (user_id : String) → Role → Exec RoleRequest
request_role d user_id requested_role = do
  found ← get_by_id user_id
  user ← or_raise found (Error.user_not_found user_id)
  if not (can_request user.role requested_role)
      then raise (Error.invalid_role_transition (cannot_request user.role requested_role))
      else do
        let role_request = RoleRequest.create (d.uuid 0) d.now user_id requested_role
        save_role_request d role_request
            (DomainEvent.role_requested role_request.id user_id (role_value requested_role) ∷ [])
        pure role_request

-- `DecideRoleRequestUseCase.execute`. The account is saved, and committed, before the request.
-- Calling a method on the account that is not there is an AttributeError.
unfoldable pub decide_role_request :
    Draw → Role → (request_id : String) → Bool → (decided_by note : String) → Exec (Unit {0})
unfolding pull_and_save
decide_role_request d actor_role request_id approve decided_by note = do
  lift (assert_can_decide_role_request actor_role)
  found ← get_role_request_by_id request_id
  role_request ← or_raise found (Error.role_request_not_found request_id)
  if approve
      then (do
        approved ← lift (RoleRequest.approve decided_by (some note) role_request)
        found_user ← get_by_id approved.user_id
        user ← or_raise found_user Error.attribute_error
        pull_and_save d (change_role approved.requested_role decided_by user)
        save_role_request d approved [])
      else do
        rejected ← lift (RoleRequest.reject decided_by (some note) role_request)
        save_role_request d rejected []

-- The part of `seed_super_admin` after the look-up.
unfoldable pub seed_unless :
    Settings → Hasher → (salt : String) → Draw → Option User → Exec (Unit {0})
unfolding pull_and_save
seed_unless s h salt d (some user) = pure tt
seed_unless s h salt d none = pull_and_save d (
    User.register_super_admin (d.uuid 0) d.now s.super_admin_email
      (h.hash salt s.super_admin_password) s.super_admin_display_name)

-- `seed_super_admin`, at start-up. The email of the settings is looked up as it stands.
unfoldable pub seed_super_admin : Settings → Hasher → (salt : String) → Draw → Exec (Unit {0})
unfolding seed_unless
seed_super_admin s h salt d = do
  existing ← get_by_email s.super_admin_email
  seed_unless s h salt d existing
