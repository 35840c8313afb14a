-- ===== src/Accounts/Escalation.antt =====
-- role_policy.py with request_role.py and decide_role_request.py: a SUPPORT account becomes ADMIN
-- by itself, though granting a role is for ADMIN alone.
use auth_profile_service.Common.{String, ◌≡◌, refl, ◌∙◌, true, none, some, [], ◌∷◌, eq_refl}
use auth_profile_service.Auth.Enums.{Role, RoleRequestStatus, role_value}
use auth_profile_service.Auth.Errors.{Error, ok, err}
use auth_profile_service.Auth.Events.{DomainEvent}
use auth_profile_service.Auth.RolePolicy.{is_staff, can_request, assert_can_decide_role_request}
use auth_profile_service.Auth.RoleRequest
use auth_profile_service.Auth.RoleRequest.{RoleRequest}
use auth_profile_service.Auth.User.{change_role, pull_events}
use auth_profile_service.Database.Tables.{find-put}
use auth_profile_service.Database.World.{UserRow, World, Draw, ◌>>=◌}
use auth_profile_service.Database.Users.{
  to_user_row, to_domain_user, get_by_id, get_role_request_by_id, save_role_request,
  store_role_request,
}
use auth_profile_service.Database.Users.Integrity.{IsSound, find_user}
use auth_profile_service.Database.Users.Lookups.{
  find_request, saved, find_user-saved, save_role_request_new, save_role_request_found,
}
use auth_profile_service.Accounts.{grant_role, request_role, decide_role_request}
use auth_profile_service.Accounts.Integrity.{IsSound-Stable}
use auth_profile_service.Accounts.Stable.{request_role-Stable}
use auth_profile_service.Accounts.Roles.{pull_and_save_lem, grant_role_lem}

module _ (w : World) (sound : IsSound w) (row : UserRow)
    (found : find_user row.id w.users ≡ some row) (d : Draw)
    (fresh : find_request (d.uuid 0) w.role_requests ≡ none) where
  abbrev asked : Role → RoleRequest
  asked role = RoleRequest.create (d.uuid 0) d.now row.id role

  -- What a permitted request stores.
  request_stored :
      (role : Role)
      → can_request row.role role ≡ true
      → request_role d row.id role w ≡ (
        ok (asked role),
        store_role_request d
            (asked role)
            (DomainEvent.role_requested (d.uuid 0) row.id (role_value role) ∷ [])
            w,
      )
  unfolding request_role ◌>>=◌ get_by_id save_role_request RoleRequest.create
  request_stored role allowed = simp (
    found,
    allowed,
    save_role_request_new d (asked role)
        (DomainEvent.role_requested (d.uuid 0) row.id (role_value role) ∷ []) w row fresh found,
  )

  module _ (role : Role) (d' : Draw) (by note : String) where
    abbrev asked_world : World
    asked_world =
        store_role_request d (asked role)
          (DomainEvent.role_requested (d.uuid 0) row.id (role_value role) ∷ []) w

    abbrev decided : RoleRequest
    decided = record (asked role) {
      status = RoleRequestStatus.approved;
      decided_by = some by;
      decision_note = some note;
    }

    request_found : find_request (d.uuid 0) asked_world.role_requests ≡ some (asked role)
    unfolding store_role_request RoleRequest.create
    request_found = rw (
      find-put (λ (r : RoleRequest). r.id) (d.uuid 0) (asked role) w.role_requests,
      eq_refl (d.uuid 0),
    )

    asked-IsSound : can_request row.role role ≡ true → IsSound asked_world
    asked-IsSound allowed =
        rw (request_stored role allowed) at
          ((request_role-Stable IsSound-Stable d row.id role).at_state w sound)

    asked_found : find_user row.id asked_world.users ≡ some row
    unfolding store_role_request
    asked_found = found

    approval_stored :
        (actor : Role)
        → can_request row.role role ≡ true
        → is_staff actor ≡ true
        → let u = change_role role by (to_domain_user row) in
          decide_role_request d' actor (d.uuid 0) true by note asked_world ≡ (
            ok tt,
            store_role_request d' decided []
                (saved d' (pull_events u).0 u.pending_events asked_world),
          )
    unfolding decide_role_request ◌>>=◌ assert_can_decide_role_request RoleRequest.approve get_by_id
        get_role_request_by_id RoleRequest.create saved store_role_request change_role
    approval_stored actor allowed staff =
        let u = change_role role by (to_domain_user row) in
        simp (
          staff,
          request_found,
          pull_and_save_lem asked_world (asked-IsSound allowed) row asked_found d' u refl refl,
          save_role_request_found d' decided []
              (saved d' (pull_events u).0 u.pending_events asked_world) (asked role) request_found,
          found,
        )

    -- On sound tables: after an account that is there made a request that the policy allows, under
    -- a new id, and staff approved it, the account has the requested role and is otherwise as it
    -- was.
    pub approved_role :
        (actor : Role)
        → can_request row.role role ≡ true
        → is_staff actor ≡ true
        → find_user row.id
            (decide_role_request d' actor
              (d.uuid 0)
              true
              by
              note
              (request_role d row.id role w).1).1.users
          ≡ some (record row { role = role })
    unfolding store_role_request change_role pull_events to_domain_user to_user_row
    approved_role actor allowed staff =
        let u = change_role role by (to_domain_user row) in
        rw (request_stored role allowed, approval_stored actor allowed staff)
          (find_user-saved row.id d' (pull_events u).0 u.pending_events asked_world
            ∙ rw (eq_refl row.id))

  -- On sound tables: an account with the role SUPPORT that asks for the role ADMIN, and then
  -- approves its own request, made under a new id, is an ADMIN, though the direct grant of that
  -- role by itself is refused.
  pub support_becomes_admin :
      (d' : Draw) (note : String)
      → row.role ≡ Role.support
      → let w' = (request_role d row.id Role.admin w).1 in
        let w'' = (decide_role_request d' row.role (d.uuid 0) true row.id note w').1 in
        (find_user row.id w''.users ≡ some (record row { role = Role.admin }))
        × (grant_role d' row.role row.id Role.admin row.id w ≡ (
          err (Error.invalid_role_transition "Only ADMIN can directly grant/change a user's role."),
          w,
        ))
  unfolding can_request is_staff
  support_becomes_admin d' note is_support = (
    approved_role Role.admin d' row.id note row.role (rw is_support) (rw is_support),
    rw (grant_role_lem w sound row found d' row.role Role.admin row.id, is_support),
  )
