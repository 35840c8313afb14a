-- ===== src/Accounts/Steps.antt =====
-- The use cases that save an account, against the machine of one account.
use mathlib.Core.Path.{subst}
use auth_profile_service.Common.{
  String, ◌≡◌, refl, sym, inl, inr, Bool, true, false, none, [], arith, Bool-cases, Option-cases,
}
use auth_profile_service.Auth.Enums.{
  Role, UserState, RoleRequestStatus, state_eq, role_eq, status_eq,
}
use auth_profile_service.Auth.RolePolicy.{
  is_staff, assert_can_ban, assert_can_grant, assert_can_approve_registration,
  assert_can_decide_role_request,
}
use auth_profile_service.Auth.RoleRequest
use auth_profile_service.Auth.RoleRequest.{RoleRequest}
use auth_profile_service.Security.Settings.{Settings}
use auth_profile_service.Security.Passwords.{Hasher}
use auth_profile_service.Auth.User
use auth_profile_service.Auth.User.{
  User, normalise, raise_event, change_role, new_account, pull_events,
}
use auth_profile_service.Database.World.{World, Draw, ◌>>=◌}
use auth_profile_service.Database.Users.{
  to_domain_user, get_by_id, get_role_request_by_id, save_role_request,
}
use auth_profile_service.Database.Users.Integrity.{IsSound, find_user, find_email}
use auth_profile_service.Database.Users.Lookups.{find_request, get_by_email_lem}
use auth_profile_service.Accounts.{
  decide_registration, ban_user, grant_role, decide_role_request, register_user, seed_super_admin,
  seed_unless,
}
use auth_profile_service.Accounts.Integrity.{UseCase}
use auth_profile_service.Accounts.Views.{
  Step, view, saved-Step, new-Step, then_view, view-save_role_request,
}

module _ {Token : Type 0} (k : String) (d : Draw) (actor : Role) (target : String) (w : World) where
  pub ban_user-Step :
      (b : Bool) (by reason : String)
      → Step {Token = Token}
          (UseCase.ban actor target b by reason)
          k
          (view k w)
          (view k (ban_user d actor target b by reason w).1)
  unfolding ban_user ◌>>=◌ get_by_id User.ban User.unban assert_can_ban raise_event to_domain_user
  ban_user-Step true by reason = elim (Bool-cases (is_staff actor)) [
    | inr e ↦ simp e Step.stay
    | inl e ↦ elim (Option-cases (find_user target w.users)) [
      | inl f ↦ simp (e, f) Step.stay
      | inr (row, f) ↦ elim (Bool-cases (state_eq row.state UserState.active)) [
        | inl h ↦
            simp (e, f, h)
              (saved-Step _ k d _ w target row f refl (λ t. (e, t, ground (arith, h), refl)))
        | inr h ↦ simp (e, f, h) Step.stay
      ]
    ]
  ]
  ban_user-Step false by reason = elim (Bool-cases (is_staff actor)) [
    | inr e ↦ simp e Step.stay
    | inl e ↦ elim (Option-cases (find_user target w.users)) [
      | inl f ↦ simp (e, f) Step.stay
      | inr (row, f) ↦ elim (Bool-cases (state_eq row.state UserState.banned)) [
        | inl h ↦
            simp (e, f, h)
              (saved-Step _ k d _ w target row f refl (λ t. (e, t, ground (arith, h), refl)))
        | inr h ↦ simp (e, f, h) Step.stay
      ]
    ]
  ]

  pub decide_registration-Step :
      (b : Bool) (by reason : String)
      → Step {Token = Token}
          (UseCase.decide actor target b by reason)
          k
          (view k w)
          (view k (decide_registration d actor target b by reason w).1)
  unfolding decide_registration ◌>>=◌ get_by_id User.approve_registration User.reject_registration
      assert_can_approve_registration raise_event to_domain_user
  decide_registration-Step true by reason = elim (Bool-cases (is_staff actor)) [
    | inr e ↦ simp e Step.stay
    | inl e ↦ elim (Option-cases (find_user target w.users)) [
      | inl f ↦ simp (e, f) Step.stay
      | inr (row, f) ↦ elim (Bool-cases (state_eq row.state UserState.pending)) [
        | inl h ↦
            simp (e, f, h)
              (saved-Step _ k d _ w target row f refl (λ t. (e, t, ground (arith, h), refl)))
        | inr h ↦ simp (e, f, h) Step.stay
      ]
    ]
  ]
  decide_registration-Step false by reason = elim (Bool-cases (is_staff actor)) [
    | inr e ↦ simp e Step.stay
    | inl e ↦ elim (Option-cases (find_user target w.users)) [
      | inl f ↦ simp (e, f) Step.stay
      | inr (row, f) ↦ elim (Bool-cases (state_eq row.state UserState.pending)) [
        | inl h ↦
            simp (e, f, h)
              (saved-Step _ k d _ w target row f refl (λ t. (e, t, ground (arith, h), refl)))
        | inr h ↦ simp (e, f, h) Step.stay
      ]
    ]
  ]

  pub grant_role-Step :
      (new_role : Role) (by : String)
      → Step {Token = Token}
          (UseCase.grant actor target new_role by)
          k
          (view k w)
          (view k (grant_role d actor target new_role by w).1)
  unfolding grant_role ◌>>=◌ get_by_id change_role assert_can_grant raise_event to_domain_user
  grant_role-Step new_role by = elim (Bool-cases (role_eq actor Role.admin)) [
    | inr e ↦ simp e Step.stay
    | inl e ↦ elim (Option-cases (find_user target w.users)) [
      | inl f ↦ simp (e, f) Step.stay
      | inr (row, f) ↦
          simp (e, f) (saved-Step _ k d _ w target row f refl (λ t. (ground (arith, e), t, refl)))
    ]
  ]

module _ {Token : Type 0} (k : String) (d : Draw) (w : World) where
  pub decide_role_request-Step :
      (actor : Role) (id : String) (b : Bool) (by note : String)
      → Step {Token = Token}
          (UseCase.decide_request actor id b by note)
          k
          (view k w)
          (view k (decide_role_request d actor id b by note w).1)
  unfolding decide_role_request ◌>>=◌ get_by_id get_role_request_by_id change_role
      assert_can_decide_role_request RoleRequest.approve RoleRequest.reject raise_event
      to_domain_user
  decide_role_request-Step actor id b by note = elim (Bool-cases (is_staff actor)) [
    | inr e ↦ simp e Step.stay
    | inl e ↦ elim (Option-cases (find_request id w.role_requests)) [
      | inl f ↦ simp (e, f) Step.stay
      | inr (r, f) ↦ elim (Bool-cases (status_eq r.status RoleRequestStatus.pending)) [
        | inr g ↦ elim (Bool-cases b) [
          | inl h ↦ simp (e, f, g, h) Step.stay
          | inr h ↦ simp (e, f, g, h) Step.stay
        ]
        | inl g ↦ elim (Bool-cases b) [
          | inl h ↦ elim (Option-cases (find_user r.user_id w.users)) [
            | inl i ↦ simp (e, f, g, h, i) Step.stay
            | inr (row, i) ↦
                simp (e, f, g, h, i)
                  (subst (Step _ k (view k w))
                    (sym (
                      then_view k d _ (λ _. save_role_request d _ []) w
                        (view-save_role_request k d _ [])))
                    (saved-Step _ k d (change_role r.requested_role by (to_domain_user row)) w
                      r.user_id row i refl (λ t. (e, refl, refl))))
          ]
          | inr h ↦
              simp (e, f, g, h)
                (subst (Step _ k (view k w)) (sym (view-save_role_request k d _ [] w)) Step.stay)
        ]
      ]
    ]
  ]

  pub register_user-Step :
      (h : Hasher) (salt email password name : String)
      → IsSound w
      → find_user (d.uuid 0) w.users ≡ none
      → Step {Token = Token}
          (UseCase.register salt email password name)
          k
          (view k w)
          (view k (register_user h salt d email password name w).1)
  unfolding register_user ◌>>=◌ User.register new_account raise_event
  register_user-Step h salt email password name sound fresh =
      elim (Option-cases (find_email (normalise email) w.users)) [
        | inr (row, e) ↦ rw (get_by_email_lem (normalise email) w sound, e) Step.stay
        | inl e ↦
            rw (get_by_email_lem (normalise email) w sound, e)
              (subst (Step _ k (view k w))
                (sym (
                  then_view k d (User.register (d.uuid 0) d.now email (h.hash salt password) name) _
                    w (λ w'. refl)))
                (new-Step _ k d (User.register (d.uuid 0) d.now email (h.hash salt password) name) w
                  fresh refl))
      ]

  pub seed_super_admin-Step :
      (s : Settings) (h : Hasher) (salt : String)
      → IsSound w
      → find_user (d.uuid 0) w.users ≡ none
      → Step {Token = Token}
          (UseCase.seed salt)
          k
          (view k w)
          (view k (seed_super_admin s h salt d w).1)
  unfolding seed_super_admin ◌>>=◌ seed_unless User.register_super_admin new_account raise_event
  seed_super_admin-Step s h salt sound fresh =
      elim (Option-cases (find_email s.super_admin_email w.users)) [
        | inr (row, e) ↦ rw (get_by_email_lem s.super_admin_email w sound, e) Step.stay
        | inl e ↦
            rw (get_by_email_lem s.super_admin_email w sound, e)
              (new-Step _ k d
                (User.register_super_admin (d.uuid 0) d.now s.super_admin_email
                  (h.hash salt s.super_admin_password) s.super_admin_display_name)
                w fresh refl)
      ]
