-- ===== src/Accounts/Bans.antt =====
-- ban_user.py against login.py and refresh_token.py: what is left to a banned account.
use auth_profile_service.Common.{
  String, ◌≡◌, refl, ap, ◌∙◌, Bool, true, false, Option, some, [], ◌∷◌, eq_refl, if◌then◌else◌,
}
use auth_profile_service.Json.{Fields, get}
use auth_profile_service.Auth.Enums.{Role, UserState, state_value}
use auth_profile_service.Auth.Errors.{Error, ok, err}
use auth_profile_service.Auth.Events.{DomainEvent}
use auth_profile_service.Auth.RolePolicy.{is_staff}
use auth_profile_service.Auth.User.{normalise}
use auth_profile_service.Database.World.{UserRow, World, Draw}
use auth_profile_service.Database.Users.{to_domain_user, to_user_row}
use auth_profile_service.Database.Users.Integrity.{IsSound, find_user}
use auth_profile_service.Database.Users.Lookups.{saved, find_user-saved, found_by_email}
use auth_profile_service.Security.Settings.{Settings}
use auth_profile_service.Security.Passwords.{Hasher}
use auth_profile_service.Security.Jwt.{Jwt, decode_refresh_token, text_claim}
use auth_profile_service.Sessions.{login, refresh, truthy_text}
use auth_profile_service.Sessions.Login.{login_lem, outcome}
use auth_profile_service.Sessions.Refresh.{answer, is_blacklisted, refresh_lem}
use auth_profile_service.Accounts.{ban_user}
use auth_profile_service.Accounts.Integrity.{IsSound-Stable}
use auth_profile_service.Accounts.Stable.{ban_user-Stable}
use auth_profile_service.Accounts.Roles.{ban_user_lem, ban_outcome}

module _ (w : World) (sound : IsSound w) (row : UserRow)
    (found : find_user row.id w.users ≡ some row) (d : Draw) (actor : Role) (by reason : String)
    (staff : is_staff actor ≡ true) (active : row.state ≡ UserState.active) where
  abbrev banned_row : UserRow
  banned_row = record row { state = UserState.banned }

  abbrev after_ban : World
  after_ban = (ban_user d actor row.id true by reason w).1

  after_ban_lem :
      after_ban
      ≡ saved d (to_domain_user banned_row) (DomainEvent.user_banned row.id by reason ∷ []) w
  unfolding ban_outcome
  after_ban_lem =
      ap (λ p. p.1) (ban_user_lem w sound row found d actor true by reason staff)
      ∙ rw (active, ban_outcome)

  found_after : find_user row.id after_ban.users ≡ some banned_row
  unfolding to_domain_user to_user_row
  found_after = rw after_ban_lem (
      find_user-saved row.id d (to_domain_user banned_row)
        (DomainEvent.user_banned row.id by reason ∷ []) w
      ∙ rw (eq_refl row.id))

  after_ban-IsSound : IsSound after_ban
  after_ban-IsSound =
      (ban_user-Stable IsSound-Stable d actor row.id true by reason).at_state w sound

  refused :
      {Token : Type 0} (jwt : Jwt Token) (s : Settings) (d' : Draw) (b : Bool)
      → answer jwt s d' row.id b (some banned_row) ≡ (
          if b
          then err (Error.token_error "Refresh token has been revoked.")
          else err (Error.token_error "Account is not active."))
  unfolding answer
  refused jwt s d' true = refl
  refused jwt s d' false = refl

  -- On sound tables, after a ban of an ACTIVE account by SUPPORT or ADMIN: a sign-in with its email
  -- and a password that verifies is refused as BANNED, and a refresh with any token of the account
  -- that decodes, with a jti that is a text or missing, is refused, as revoked if its jti is on the
  -- blacklist and else because the account is not ACTIVE.
  pub banned_out :
      {Token : Type 0} (jwt : Jwt Token) (s : Settings) (h : Hasher) (d' : Draw)
      (email password ip : String) (token : Token) (claims : Fields) (jti : Option String)
      → normalise email ≡ row.email
      → h.verify password row.password_hash ≡ true
      → decode_refresh_token jwt s d'.now token ≡ ok claims
      → truthy_text (get "jti" claims) ≡ ok jti
      → text_claim "sub" claims ≡ ok row.id
      → ((login jwt s h d' email password ip after_ban).0 ≡ err (Error.account_not_usable "BANNED"))
        × ((refresh jwt s d' token after_ban).0 ≡ (
            if is_blacklisted d'.now jti after_ban
            then err (Error.token_error "Refresh token has been revoked.")
            else err (Error.token_error "Account is not active.")))
  unfolding outcome state_value
  banned_out jwt s h d' email password ip token claims jti same verified decoded jti_is sub_is = (
    rw (
      login_lem jwt s h d' email password ip after_ban after_ban-IsSound,
      same,
      found_by_email row.id after_ban.users banned_row after_ban-IsSound.emails found_after,
      verified,
    ),
    ap (λ p. p.0) (refresh_lem jwt s d' token after_ban claims row.id jti decoded jti_is sub_is)
        ∙ (ap (answer jwt s d' row.id (is_blacklisted d'.now jti after_ban)) found_after
            ∙ refused jwt s d' (is_blacklisted d'.now jti after_ban)),
  )
