-- ===== src/Platform/Announced.antt =====
-- user_repository.py and user.py: the outbox row that announces an account, and the accounts that are
-- opened with one.
use mathlib.Core.Path.{subst}
use auth_profile_service.Common.{
  Has-map, ℕ, String, ◌≡◌, ◌≢◌, refl, sym, ◌⊎◌, inl, inr, false, none, [], ◌∷◌, ◌++◌, map, is_empty,
  Has, ◌==◌, eq_iff, Bool-cases, Option-cases, Has-end,
}
use auth_profile_service.Auth.Enums.{Role, role_value}
use auth_profile_service.Auth.Errors.{Result-cases}
use auth_profile_service.Auth.Events.{DomainEvent, event_type, to_payload}
use auth_profile_service.Auth.User
use auth_profile_service.Auth.User.{User, normalise, new_account, pull_events, raise_event}
use auth_profile_service.Database.Tables.{find-put}
use auth_profile_service.Database.World.{UserRow, OutboxRow, World, Draw, Exec, pure, ◌>>=◌}
use auth_profile_service.Database.Users.{to_user_row, outbox_rows, email_taken, save}
use auth_profile_service.Database.Users.Integrity.{IsSound, find_user, find_email}
use auth_profile_service.Database.Users.Lookups.{get_by_email_lem}
use auth_profile_service.Security.Settings.{Settings}
use auth_profile_service.Security.Passwords.{Hasher}
use auth_profile_service.Accounts.{pull_and_save, register_user, seed_super_admin, seed_unless}
use auth_profile_service.Messaging.Outbox.{message_of}

-- The row is that of the event that the account's registration raised.
pub record Announces (k : String) (row : OutboxRow) : Type 0 where
  pub email : String
  pub display_name : String
  pub role : String
  pub state : String
  pub has_id : is_empty row.id ≡ false
  pub has_topic : row.topic ≡ "user-events"
  pub has_type :
      row.event_type ≡ event_type (DomainEvent.user_registered k email display_name role state)
  pub has_payload :
      row.payload ≡ to_payload (DomainEvent.user_registered k email display_name role state)

-- The outbox row of a new account.
abbrev new_row : Role → Draw → (email name : String) → OutboxRow
new_row role d email name = record {
  id = d.uuid 1;
  aggregate_type = "User";
  aggregate_id = d.uuid 0;
  topic = "user-events";
  event_type =
      event_type
        (DomainEvent.user_registered (d.uuid 0) (normalise email) name (role_value role) "ACTIVE");
  payload =
      to_payload
        (DomainEvent.user_registered (d.uuid 0) (normalise email) name (role_value role) "ACTIVE");
  dispatched = false;
  created_at = d.now;
  dispatched_at = none;
}

pure-quiet :
    {A B : Type 0} (m : Exec A) (f : A → B) (w : World) → ((m >>= λ a. pure (f a)) w).1 ≡ (m w).1
unfolding ◌>>=◌
pure-quiet m f w = elim (Result-cases (m w).0) [ inl (a, e) ↦ rw e | inr (x, e) ↦ rw e ]

module _ (isoformat : ℕ → String) (s : Settings) where
  abbrev pub IsAnnounced : String → World → Type 0
  IsAnnounced k w =
      (row : OutboxRow) × Announces k row
      × Has (message_of isoformat s row) (map (message_of isoformat s) w.outbox)

  abbrev pub AllAnnounced : World → Type 0
  AllAnnounced w = (k : String) → find_user k w.users ≢ none → IsAnnounced k w

  new_account-IsAnnounced :
      (role : Role) (k : String) (d : Draw) (email hash name : String) (w : World)
      → is_empty (d.uuid 1) ≡ false
      → find_user k w.users ≡ none
      → let w' = (pull_and_save d (new_account role (d.uuid 0) d.now email hash name) w).1 in
        find_user k w'.users ≢ none → IsAnnounced k w'
  unfolding pull_and_save pull_events save outbox_rows new_account raise_event to_user_row
  new_account-IsAnnounced role k d email hash name w i free =
      let user = new_account role (d.uuid 0) d.now email hash name in
      elim (Bool-cases (email_taken (pull_events user).0 w.users)) [
        | inl e ↦ rw (e, save) (λ h. elim (h free) [ ])
        | inr e ↦ elim (Bool-cases (d.uuid 0 == k)) [
          | inr f ↦
              rw
                (
                  e,
                  save,
                  find-put (λ (r : UserRow). r.id) k (to_user_row (pull_events user).0) w.users,
                  f,
                )
                (λ h. elim (h free) [ ])
          | inl f ↦
              rw (e, save)
                (λ h. (
                  new_row role d email name,
                  subst (λ x. Announces x (new_row role d email name)) ((eq_iff (d.uuid 0) k).0 f)
                      (record {
                        email = normalise email;
                        display_name = name;
                        role = role_value role;
                        state = "ACTIVE";
                        has_id = i;
                        has_topic = refl;
                        has_type = refl;
                        has_payload = refl;
                      }),
                  Has-map (message_of isoformat s) (new_row role d email name)
                      (w.outbox ++ new_row role d email name ∷ [])
                      (Has-end (new_row role d email name) w.outbox),
                ))
        ]
      ]

  -- A state that is the one before, or the one after a new account was saved.
  abbrev pub IsOpened : Draw → World → World → Type 0
  IsOpened d w w' =
      (w' ≡ w)
      ⊎ ((role : Role) × (email : String) × (hash : String) × (name : String) × (w'
            ≡ (pull_and_save d (new_account role (d.uuid 0) d.now email hash name) w).1))

  pub IsOpened-IsAnnounced :
      (k : String) (d : Draw) (w w' : World)
      → is_empty (d.uuid 1) ≡ false
      → find_user k w.users ≡ none
      → IsOpened d w w'
      → find_user k w'.users ≢ none
      → IsAnnounced k w'
  IsOpened-IsAnnounced k d w w' i free (inl e) =
      λ m. elim (m (subst (λ x. find_user k x.users ≡ none) (sym e) free)) [ ]
  IsOpened-IsAnnounced k d w w' i free (inr (role, email, hash, name, e)) =
      subst (λ x. find_user k x.users ≢ none → IsAnnounced k x) (sym e)
        (new_account-IsAnnounced role k d email hash name w i free)

  pub register_user-IsOpened :
      (h : Hasher) (salt : String) (d : Draw) (email password name : String) (w : World)
      → IsSound w
      → IsOpened d w (register_user h salt d email password name w).1
  unfolding register_user ◌>>=◌ User.register
  register_user-IsOpened h salt d email password name w sound =
      let user = User.register (d.uuid 0) d.now email (h.hash salt password) name in
      elim (Option-cases (find_email (normalise email) w.users)) [
        | inr (row, e) ↦ inl (rw (get_by_email_lem (normalise email) w sound, e))
        | inl e ↦ inr (
          Role.basic_user,
          email,
          h.hash salt password,
          name,
          rw (get_by_email_lem (normalise email) w sound, e)
              (pure-quiet (pull_and_save d user) (λ u. (pull_events user).0) w),
        )
      ]

  pub seed_super_admin-IsOpened :
      (h : Hasher) (salt : String) (d : Draw) (w : World)
      → IsSound w
      → IsOpened d w (seed_super_admin s h salt d w).1
  unfolding seed_super_admin ◌>>=◌ seed_unless User.register_super_admin
  seed_super_admin-IsOpened h salt d w sound =
      elim (Option-cases (find_email s.super_admin_email w.users)) [
        | inr (row, e) ↦ inl (rw (get_by_email_lem s.super_admin_email w sound, e))
        | inl e ↦ inr (
          Role.admin,
          s.super_admin_email,
          h.hash salt s.super_admin_password,
          s.super_admin_display_name,
          rw (get_by_email_lem s.super_admin_email w sound, e),
        )
      ]
