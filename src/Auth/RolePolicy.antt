-- ===== src/Auth/RolePolicy.antt =====
-- app/domain/auth/role_policy.py: who may request, grant, decide and ban.
use auth_profile_service.Common.{Bool, false, not, ◌||◌, if◌then◌else◌}
use auth_profile_service.Auth.Enums.{Role, role_eq}
use auth_profile_service.Auth.Errors.{Error, Result, ok, err}

-- `SELF_REQUESTABLE_ROLES`.
unfoldable pub is_self_requestable : Role → Bool
is_self_requestable r = role_eq r Role.developer || role_eq r Role.support

unfoldable pub can_request : Role → Role → Bool
unfolding is_self_requestable
can_request current requested =
    if role_eq requested current
    then false
    else is_self_requestable requested || not (role_eq current Role.basic_user)

-- `role in (Role.SUPPORT, Role.ADMIN)`.
unfoldable pub is_staff : Role → Bool
is_staff r = role_eq r Role.support || role_eq r Role.admin

unfoldable pub assert_can_grant : Role → Role → Result (Unit {0})
assert_can_grant granter target =
    if role_eq granter Role.admin
    then ok tt
    else err (Error.invalid_role_transition "Only ADMIN can directly grant/change a user's role.")

unfoldable pub assert_can_decide_role_request : Role → Result (Unit {0})
unfolding is_staff
assert_can_decide_role_request decider =
    if is_staff decider
    then ok tt
    else err
        (Error.invalid_role_transition "Only SUPPORT or ADMIN can approve/reject role requests.")

unfoldable pub assert_can_ban : Role → Result (Unit {0})
unfolding is_staff
assert_can_ban actor =
    if is_staff actor
    then ok tt
    else err (Error.invalid_role_transition "Only SUPPORT or ADMIN can ban/unban users.")

unfoldable pub assert_can_approve_registration : Role → Result (Unit {0})
unfolding is_staff
assert_can_approve_registration actor =
    if is_staff actor
    then ok tt
    else err
        (Error.invalid_role_transition "Only SUPPORT or ADMIN can approve/reject registrations.")
