-- ===== src/Auth/Enums.antt =====
-- app/domain/auth/enums.py: the roles, the account states and the states of a role request.
use auth_profile_service.Common.{
  String, ◌≡◌, refl, Bool, true, false, Option, none, some, ◌==◌, if◌then◌else◌,
}

pub data Role : Type 0 where
  basic_user developer support admin : Role

pub data UserState : Type 0 where
  pending active rejected banned : UserState

pub data RoleRequestStatus : Type 0 where
  pending approved rejected : RoleRequestStatus

-- `Role.value`, and so on: a member's text is its name.
unfoldable pub role_value : Role → String
role_value Role.basic_user = "BASIC_USER"
role_value Role.developer = "DEVELOPER"
role_value Role.support = "SUPPORT"
role_value Role.admin = "ADMIN"

unfoldable pub state_value : UserState → String
state_value UserState.pending = "PENDING"
state_value UserState.active = "ACTIVE"
state_value UserState.rejected = "REJECTED"
state_value UserState.banned = "BANNED"

unfoldable pub status_value : RoleRequestStatus → String
status_value RoleRequestStatus.pending = "PENDING"
status_value RoleRequestStatus.approved = "APPROVED"
status_value RoleRequestStatus.rejected = "REJECTED"

-- `Role(text)`; `none` is the ValueError of a text that names no role.
unfoldable pub role_of_value : String → Option Role
role_of_value s =
    if s == "BASIC_USER"
    then some Role.basic_user
    else if s == "DEVELOPER"
    then some Role.developer
    else if s == "SUPPORT"
    then some Role.support
    else if s == "ADMIN"
    then some Role.admin
    else none

abbrev pub role_eq : Role → Role → Bool
role_eq Role.basic_user Role.basic_user = true
role_eq Role.developer Role.developer = true
role_eq Role.support Role.support = true
role_eq Role.admin Role.admin = true
role_eq _ _ = false

abbrev pub state_eq : UserState → UserState → Bool
state_eq UserState.pending UserState.pending = true
state_eq UserState.active UserState.active = true
state_eq UserState.rejected UserState.rejected = true
state_eq UserState.banned UserState.banned = true
state_eq _ _ = false

abbrev pub status_eq : RoleRequestStatus → RoleRequestStatus → Bool
status_eq RoleRequestStatus.pending RoleRequestStatus.pending = true
status_eq RoleRequestStatus.approved RoleRequestStatus.approved = true
status_eq RoleRequestStatus.rejected RoleRequestStatus.rejected = true
status_eq _ _ = false

pub role_of_value-role_value : (r : Role) → role_of_value (role_value r) ≡ some r
unfolding role_of_value role_value
role_of_value-role_value Role.basic_user = refl
role_of_value-role_value Role.developer = refl
role_of_value-role_value Role.support = refl
role_of_value-role_value Role.admin = refl
