-- ===== src/Auth/User.antt =====
-- app/domain/auth/user.py: the account, its state machine, and the events it raises.
use auth_profile_service.Common.{ℕ, String, Bool, List, [], ◌∷◌, ◌++◌, if◌then◌else◌, lower, strip}
use auth_profile_service.Auth.Enums.{Role, UserState, role_value, state_value, state_eq}
use auth_profile_service.Auth.Errors.{Error, Result, ok, err}
pub mod Machine
pub mod Replay
use auth_profile_service.Auth.Events.{DomainEvent}

pub record User : Type 0 where
  pub id : String
  pub email : String
  pub password_hash : String
  pub display_name : String
  pub role : Role
  pub state : UserState
  pub created_at : ℕ
  pub pending_events : List DomainEvent

-- `_raise`
unfoldable pub raise_event : DomainEvent → User → User
raise_event e u = record u { pending_events = u.pending_events ++ e ∷ [] }

-- `email.lower().strip()`
unfoldable pub normalise : String → String
unfolding lower strip
normalise email = strip (lower email)

-- The body that `register` and `register_super_admin` share: a new account and its event.
unfoldable pub new_account :
    Role → (id : String) (now : ℕ) (email password_hash display_name : String) → User
unfolding raise_event role_value state_value
new_account role id now email password_hash display_name =
    raise_event
      (DomainEvent.user_registered id (normalise email) display_name (role_value role)
        (state_value UserState.active))
      (record {
        id = id;
        email = normalise email;
        password_hash = password_hash;
        display_name = display_name;
        role = role;
        state = UserState.active;
        created_at = now;
        pending_events = [];
      })

unfoldable pub register : (id : String) (now : ℕ) (email password_hash display_name : String) → User
unfolding new_account
register = new_account Role.basic_user

unfoldable pub register_super_admin :
    (id : String) (now : ℕ) (email password_hash display_name : String) → User
unfolding new_account
register_super_admin = new_account Role.admin

unfoldable pub approve_registration : String → User → Result User
unfolding raise_event
approve_registration decided_by u =
    if state_eq u.state UserState.pending
    then ok (
        raise_event (DomainEvent.registration_approved u.id decided_by)
          (record u { state = UserState.active }))
    else err (Error.invalid_state_transition (state_value u.state) "approve_registration")

unfoldable pub reject_registration : String → String → User → Result User
unfolding raise_event
reject_registration decided_by reason u =
    if state_eq u.state UserState.pending
    then ok (
        raise_event (DomainEvent.registration_rejected u.id decided_by reason)
          (record u { state = UserState.rejected }))
    else err (Error.invalid_state_transition (state_value u.state) "reject_registration")

unfoldable pub ban : String → String → User → Result User
unfolding raise_event
ban banned_by reason u =
    if state_eq u.state UserState.active
    then ok (
        raise_event (DomainEvent.user_banned u.id banned_by reason)
          (record u { state = UserState.banned }))
    else err (Error.invalid_state_transition (state_value u.state) "ban")

unfoldable pub unban : String → User → Result User
unfolding raise_event
unban unbanned_by u =
    if state_eq u.state UserState.banned
    then ok (
        raise_event (DomainEvent.user_unbanned u.id unbanned_by)
          (record u { state = UserState.active }))
    else err (Error.invalid_state_transition (state_value u.state) "unban")

unfoldable pub change_role : Role → String → User → User
unfolding raise_event role_value
change_role new_role granted_by u =
    raise_event (DomainEvent.role_granted u.id (role_value u.role) (role_value new_role) granted_by)
      (record u { role = new_role })

unfoldable pub can_login : User → Bool
can_login u = state_eq u.state UserState.active

-- The account without its events, and the events.
unfoldable pub pull_events : User → User × List DomainEvent
pull_events u = (record u { pending_events = [] }, u.pending_events)
