-- ===== src/Accounts/Seed.antt =====
-- bootstrap.py: seeding the first administrator at every start of the service.
use auth_profile_service.Common.{String, ◌≡◌, ◌≢◌, refl, ap, sym, ◌∙◌, none, some}
use auth_profile_service.Auth.Enums.{Role, UserState}
use auth_profile_service.Auth.Errors.{Error, ok, err}
use auth_profile_service.Auth.User
use auth_profile_service.Auth.User.{User, normalise, new_account, pull_events}
use auth_profile_service.Database.World.{UserRow, World, Draw, ◌>>=◌}
use auth_profile_service.Database.Users.{to_user_row, save}
use auth_profile_service.Database.Users.Integrity.{IsSound, find_user, find_email}
use auth_profile_service.Database.Users.Lookups.{
  get_by_email_lem, not_taken_of_free, find_email-put_new, saved, save_lem, taken_by_other,
}
use auth_profile_service.Security.Settings.{Settings}
use auth_profile_service.Security.Passwords.{Hasher}
use auth_profile_service.Accounts.{seed_super_admin}
use auth_profile_service.Accounts.Integrity.{IsSound-Stable}
use auth_profile_service.Accounts.Stable.{seed_super_admin-Stable}

module _ (s : Settings) (h : Hasher) (salt : String) (d : Draw) (w : World)
    (sound : IsSound w) where
  abbrev admin : User
  admin =
      User.register_super_admin (d.uuid 0) d.now s.super_admin_email
        (h.hash salt s.super_admin_password) s.super_admin_display_name

  seeded :
      normalise s.super_admin_email ≡ s.super_admin_email
      → find_email s.super_admin_email w.users ≡ none
      → seed_super_admin s h salt d w
        ≡ (ok tt, saved d (pull_events admin).0 admin.pending_events w)
  unfolding seed_super_admin ◌>>=◌ new_account User.register_super_admin
  seeded normal e = rw (
    get_by_email_lem s.super_admin_email w sound,
    e,
    save_lem d (pull_events admin).0 admin.pending_events w
        (not_taken_of_free (pull_events admin).0 w.users (rw normal e)),
  )

  -- A start where the configured email has an account changes nothing.
  pub seed_again :
      (row : UserRow)
      → find_email s.super_admin_email w.users ≡ some row
      → seed_super_admin s h salt d w ≡ (ok tt, w)
  unfolding seed_super_admin ◌>>=◌
  seed_again row e = rw (get_by_email_lem s.super_admin_email w sound, e)

  -- On sound tables: where no account has the configured email as it stands, but an account with
  -- another id than the new one has its normal form, the start fails with an IntegrityError and changes
  -- nothing.
  pub seed_fails :
      (row : UserRow)
      → find_email s.super_admin_email w.users ≡ none
      → find_email (normalise s.super_admin_email) w.users ≡ some row
      → row.id ≢ d.uuid 0
      → seed_super_admin s h salt d w ≡ (err Error.integrity_error, w)
  unfolding seed_super_admin ◌>>=◌ new_account User.register_super_admin save
  seed_fails row e other ne = rw (
    get_by_email_lem s.super_admin_email w sound,
    e,
    taken_by_other (pull_events admin).0 w.users row other ne,
  )

  found_after_seed :
      normalise s.super_admin_email ≡ s.super_admin_email
      → find_email s.super_admin_email w.users ≡ none
      → find_user (d.uuid 0) w.users ≡ none
      → find_email s.super_admin_email (seed_super_admin s h salt d w).1.users
        ≡ some (to_user_row admin)
  unfolding saved new_account User.register_super_admin to_user_row pull_events
  found_after_seed normal e fresh = rw (seeded normal e) (
      ap (λ k. find_email k (saved d (pull_events admin).0 admin.pending_events w).users)
        (sym normal)
      ∙ find_email-put_new (pull_events admin).0 w.users fresh (rw normal e))

  -- On sound tables: where the configured email is in normal form and free, and the id is new: the
  -- first start stores an ACTIVE account with the role ADMIN under it, and any later start changes
  -- nothing.
  pub seed_once :
      (h' : Hasher) (salt' : String) (d' : Draw)
      → normalise s.super_admin_email ≡ s.super_admin_email
      → find_email s.super_admin_email w.users ≡ none
      → find_user (d.uuid 0) w.users ≡ none
      → let w' = (seed_super_admin s h salt d w).1 in
        (find_email s.super_admin_email w'.users ≡ some (to_user_row admin))
        × ((to_user_row admin).role ≡ Role.admin)
        × ((to_user_row admin).state ≡ UserState.active)
        × (seed_super_admin s h' salt' d' w' ≡ (ok tt, w'))
  unfolding new_account User.register_super_admin to_user_row seed_super_admin ◌>>=◌
  seed_once h' salt' d' normal e fresh = (
    found_after_seed normal e fresh,
    refl,
    refl,
    rw (
      get_by_email_lem s.super_admin_email (seed_super_admin s h salt d w).1
          ((seed_super_admin-Stable IsSound-Stable s h salt d).at_state w sound),
      found_after_seed normal e fresh,
    ),
  )
