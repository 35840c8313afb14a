-- ===== src/Accounts/Roles.antt =====
-- ban_user.py, grant_role.py, request_role.py and decide_role_request.py: what they do to an account
-- that is there, and a way past the rule on granting.
use auth_profile_service.Common.{
  String, ◌≡◌, refl, Bool, true, false, some, [], ◌∷◌, arith, if◌then◌else◌,
}
use auth_profile_service.Auth.Enums.{Role, UserState, role_value, role_eq, state_eq, state_value}
use auth_profile_service.Auth.Errors.{Error, Result, ok, err}
use auth_profile_service.Auth.Events.{DomainEvent}
use auth_profile_service.Auth.RolePolicy.{
  is_staff, assert_can_grant, assert_can_ban, assert_can_decide_role_request,
  assert_can_approve_registration,
}
use auth_profile_service.Auth.User
use auth_profile_service.Auth.User.{User, change_role, pull_events, raise_event}
use auth_profile_service.Database.World.{UserRow, World, Draw, ◌>>=◌}
use auth_profile_service.Database.Users.{to_domain_user, get_by_id}
use auth_profile_service.Database.Users.Integrity.{IsSound, find_user}
use auth_profile_service.Database.Users.Lookups.{not_taken_of_found, saved, save_lem}
use auth_profile_service.Accounts.{
  pull_and_save, decide_registration, ban_user, grant_role, decide_role_request,
}

module _ (w : World) (sound : IsSound w) (row : UserRow)
    (found : find_user row.id w.users ≡ some row) where
  -- To save the account with its id and email unchanged does not meet the unique email.
  pub pull_and_save_lem :
      (d : Draw) (u : User)
      → u.id ≡ row.id
      → u.email ≡ row.email
      → pull_and_save d u w ≡ (ok tt, saved d (pull_events u).0 u.pending_events w)
  unfolding pull_and_save
  pull_and_save_lem d u i e =
      save_lem d (pull_events u).0 u.pending_events w
        (not_taken_of_found (pull_events u).0 w.users row sound.emails (rw i found) e)

  -- What `ban_user` and its unban do to the account, whatever its state.
  unfoldable pub ban_outcome : Draw → Bool → (by reason : String) → Result (Unit {0}) × World
  ban_outcome d true by reason =
      if state_eq row.state UserState.active
      then (
        ok tt,
        saved d (to_domain_user (record row { state = UserState.banned }))
            (DomainEvent.user_banned row.id by reason ∷ []) w,
      )
      else (err (Error.invalid_state_transition (state_value row.state) "ban"), w)
  ban_outcome d false by reason =
      if state_eq row.state UserState.banned
      then (
        ok tt,
        saved d (to_domain_user (record row { state = UserState.active }))
            (DomainEvent.user_unbanned row.id by ∷ []) w,
      )
      else (err (Error.invalid_state_transition (state_value row.state) "unban"), w)

  -- On sound tables and an account that is there, SUPPORT and ADMIN ban exactly ACTIVE accounts and
  -- unban exactly BANNED ones: the account is stored with its new state, together with one event.
  -- In any other state the call is refused and nothing changes.
  pub ban_user_lem :
      (d : Draw) (actor : Role) (b : Bool) (by reason : String)
      → is_staff actor ≡ true
      → ban_user d actor row.id b by reason w ≡ ban_outcome d b by reason
  unfolding ban_user ◌>>=◌ get_by_id User.ban User.unban assert_can_ban ban_outcome
  ban_user_lem d actor true by reason staff =
      simp (staff, found)
        (ground (
          arith,
          pull_and_save_lem d
              (raise_event (DomainEvent.user_banned row.id by reason)
                (record (to_domain_user row) { state = UserState.banned }))
              refl refl,
        ))
  ban_user_lem d actor false by reason staff =
      simp (staff, found)
        (ground (
          arith,
          pull_and_save_lem d
              (raise_event (DomainEvent.user_unbanned row.id by)
                (record (to_domain_user row) { state = UserState.active }))
              refl refl,
        ))

  -- On sound tables, an account that is there gets the new role from an ADMIN, whatever its state,
  -- and one RoleGranted event tells the old and the new role; any other role of the caller is
  -- refused and nothing changes.
  pub grant_role_lem :
      (d : Draw) (actor new_role : Role) (by : String)
      → grant_role d actor row.id new_role by w ≡ (
          if role_eq actor Role.admin
          then (
            ok tt,
            saved d
                (to_domain_user (record row { role = new_role }))
                (DomainEvent.role_granted row.id (role_value row.role) (role_value new_role) by
                  ∷ [])
                w,
          )
          else (
            err (
                Error.invalid_role_transition
                  "Only ADMIN can directly grant/change a user's role."),
            w,
          ))
  unfolding grant_role ◌>>=◌ get_by_id change_role assert_can_grant
  grant_role_lem d Role.admin new_role by =
      simp found (pull_and_save_lem d (change_role new_role by (to_domain_user row)) refl refl)
  grant_role_lem d _ new_role by = refl

-- Callers that are not staff are refused before anything is read, and nothing changes.
pub staff_only :
    (d : Draw) (actor : Role) (b : Bool) (target by note : String) (w : World)
    → is_staff actor ≡ false
    → (ban_user d actor target b by note w
        ≡ (err (Error.invalid_role_transition "Only SUPPORT or ADMIN can ban/unban users."), w))
      × (decide_registration d actor target b by note w ≡ (
        err (
            Error.invalid_role_transition
              "Only SUPPORT or ADMIN can approve/reject registrations."),
        w,
      ))
      × (decide_role_request d actor target b by note w ≡ (
        err (
            Error.invalid_role_transition
              "Only SUPPORT or ADMIN can approve/reject role requests."),
        w,
      ))
unfolding ban_user decide_registration decide_role_request ◌>>=◌ assert_can_ban
    assert_can_approve_registration assert_can_decide_role_request
staff_only d actor b target by note w h = (simp h, simp h, simp h)
