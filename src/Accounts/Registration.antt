-- ===== src/Accounts/Registration.antt =====
-- register_user.py and bootstrap.py: a new account is stored with its event, can sign in, and its
-- email is refused from then on.
use auth_profile_service.Common.{String, ◌≡◌, none, some, []}
use auth_profile_service.Auth.Errors.{Error, ok, err}
use auth_profile_service.Auth.User
use auth_profile_service.Auth.User.{User, normalise, new_account, pull_events}
use auth_profile_service.Database.World.{UserRow, World, Draw, ◌>>=◌}
use auth_profile_service.Database.Users.{to_user_row}
use auth_profile_service.Database.Users.Integrity.{IsSound, find_user, find_email}
use auth_profile_service.Database.Users.Lookups.{
  get_by_email_lem, not_taken_of_free, find_email-put_new, saved, save_lem,
}
use auth_profile_service.Security.Settings.{Settings}
use auth_profile_service.Security.Passwords.{Hasher, HasherLaws}
use auth_profile_service.Security.Jwt.{Jwt, create_access_token, create_refresh_token}
use auth_profile_service.Accounts.{register_user}
use auth_profile_service.Accounts.Integrity.{IsSound-Stable}
use auth_profile_service.Accounts.Stable.{register_user-Stable}
use auth_profile_service.Sessions.{login}
use auth_profile_service.Sessions.Login.{login_lem, outcome}

module _ (h : Hasher) (salt : String) (d : Draw) (email password name : String) (w : World)
    (sound : IsSound w) where
  abbrev new_user : User
  new_user = User.register (d.uuid 0) d.now email (h.hash salt password) name

  -- On sound tables: an email that has an account, in any case or with spaces round it, is refused
  -- and nothing changes.
  pub register_duplicate :
      (row : UserRow)
      → find_email (normalise email) w.users ≡ some row
      → register_user h salt d email password name w ≡ (err (Error.duplicate_email email), w)
  unfolding register_user ◌>>=◌
  register_duplicate row e = rw (get_by_email_lem (normalise email) w sound, e)

  -- A free email and a new id: the account and its event are stored in one write, and the account
  -- is returned with no event left on it.
  pub register_new :
      find_email (normalise email) w.users ≡ none
      → register_user h salt d email password name w
        ≡ (ok (pull_events new_user).0, saved d (pull_events new_user).0 new_user.pending_events w)
  unfolding register_user ◌>>=◌ new_account User.register
  register_new e = rw (
    get_by_email_lem (normalise email) w sound,
    e,
    save_lem d (pull_events new_user).0 new_user.pending_events w
        (not_taken_of_free (pull_events new_user).0 w.users e),
  )

  found_after :
      find_email (normalise email) w.users ≡ none
      → find_user (d.uuid 0) w.users ≡ none
      → find_email (normalise email) (register_user h salt d email password name w).1.users
        ≡ some (to_user_row new_user)
  unfolding saved new_account User.register to_user_row pull_events
  found_after e fresh =
      rw (register_new e) (find_email-put_new (pull_events new_user).0 w.users fresh e)

  IsSound-after : IsSound (register_user h salt d email password name w).1
  IsSound-after =
      (register_user-Stable IsSound-Stable h salt d email password name).at_state w sound

  -- On sound tables and with passlib's law: after a registration with a free email and a new id, a
  -- sign-in with the same password, and an email that is the same up to case and surrounding
  -- spaces, returns tokens for the new id with the role BASIC_USER.
  pub register_then_login :
      {Token : Type 0} (jwt : Jwt Token) (s : Settings) (d' : Draw) (email' ip : String)
      → HasherLaws h
      → find_email (normalise email) w.users ≡ none
      → find_user (d.uuid 0) w.users ≡ none
      → normalise email' ≡ normalise email
      → (login jwt s h d' email' password ip (register_user h salt d email password name w).1).0
        ≡ ok (
          create_access_token jwt s d' (d.uuid 0) "BASIC_USER" [],
          create_refresh_token jwt s d' (d.uuid 0),
        )
  unfolding outcome new_account User.register to_user_row
  register_then_login jwt s d' email' ip laws e fresh same = rw (
    login_lem jwt s h d' email' password ip (register_user h salt d email password name w).1
        IsSound-after,
    same,
    found_after e fresh,
    laws.verify-hash salt password,
  )

  -- On sound tables: after a registration with a free email and a new id, every further
  -- registration with an email that is the same up to case and surrounding spaces is refused and
  -- changes nothing.
  pub register_twice :
      (h' : Hasher) (salt' : String) (d' : Draw) (email' password' name' : String)
      → find_email (normalise email) w.users ≡ none
      → find_user (d.uuid 0) w.users ≡ none
      → normalise email' ≡ normalise email
      → let w' = (register_user h salt d email password name w).1 in
        register_user h' salt' d' email' password' name' w'
        ≡ (err (Error.duplicate_email email'), w')
  unfolding register_user ◌>>=◌
  register_twice h' salt' d' email' password' name' e fresh same = rw (
    get_by_email_lem (normalise email') (register_user h salt d email password name w).1
        IsSound-after,
    same,
    found_after e fresh,
  )
