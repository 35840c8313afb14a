-- ===== src/Ports/Contract.antt =====
-- What the ports of the accounts and of the blacklist promise, and that the implementations keep it.
use mathlib.Core.Path.{subst}
use auth_profile_service.Common.{
  String, ◌≡◌, ◌≢◌, refl, sym, ap, ◌∙◌, ◌⊎◌, inl, inr, some, List, [], ◌++◌, ◌==◌, eq_iff, eq_refl,
  Bool-cases,
}
use auth_profile_service.Auth.Errors.{Error, ok, err}
use auth_profile_service.Auth.Events.{DomainEvent}
use auth_profile_service.Auth.User.{User}
use auth_profile_service.Database.World.{World, Draw}
use auth_profile_service.Database.Search.{TextSearch}
use auth_profile_service.Database.Users.{
  get_by_id, get_by_email, to_domain_user, to_user_row, email_taken, save, outbox_rows,
}
use auth_profile_service.Database.Users.Integrity.{IsSound, find_user, save-IsSound}
use auth_profile_service.Database.Users.Lookups.{
  get_by_id_lem, get_by_email_lem, saved, find_user-saved, found_by_email,
}
use auth_profile_service.Ports.{UserRepositoryPort, user_repository}

-- An account as it is read back: without the events that it was saved with.
abbrev pub as_read : User → User
as_read u = record u { pending_events = [] }

-- A repository of accounts is a map from ids to accounts, in which no two have one email: reads change
-- nothing; a save that returns is read back by the id and by the email, changes no other account, and adds
-- its events, in their order, to the outbox; and a save that raises changes nothing.
pub record UserRepositoryLaws (IsValid : World → Type 0) (r : UserRepositoryPort) : Type 0 where
  pub reads : (k : String) (w : World) → (r.get_by_id k w).1 ≡ w
  pub save_read :
      (d : Draw) (u : User) (es : List DomainEvent) (w w' : World) (k : String)
      → IsValid w
      → r.save d u es w ≡ (ok tt, w')
      → u.id ≢ k
      → ((r.get_by_id u.id w').0 ≡ ok (some (as_read u)))
        × ((r.get_by_email u.email w').0 ≡ ok (some (as_read u)))
        × ((r.get_by_id k w').0 ≡ (r.get_by_id k w).0)
        × (w'.outbox ≡ w.outbox ++ outbox_rows d "User" u.id 1 es)
        × IsValid w'
  pub save_refused :
      (d : Draw) (u : User) (es : List DomainEvent) (w w' : World) (e : Error)
      → r.save d u es w ≡ (err e, w')
      → w' ≡ w

module _ (d : Draw) (u : User) (es : List DomainEvent) (w : World) where
  save-cases :
      (save d u es w ≡ (err Error.integrity_error, w)) ⊎ (save d u es w ≡ (ok tt, saved d u es w))
  unfolding save saved
  save-cases = elim (Bool-cases (email_taken u w.users)) [ inl e ↦ inl (rw e) | inr e ↦ inr (rw e) ]

  found_saved : find_user u.id (saved d u es w).users ≡ some (to_user_row u)
  found_saved = rw (find_user-saved u.id d u es w, eq_refl u.id)

  module _ (sound : IsSound w) (written : save d u es w ≡ (ok tt, saved d u es w)) where
    saved-IsSound : IsSound (saved d u es w)
    saved-IsSound = subst IsSound (ap (λ x. x.1) written) ((save-IsSound d u es).at_state w sound)

    read_by_id : (get_by_id u.id (saved d u es w)).0 ≡ ok (some (as_read u))
    unfolding to_domain_user to_user_row
    read_by_id = rw (get_by_id_lem u.id (saved d u es w), found_saved)

    read_by_email : (get_by_email u.email (saved d u es w)).0 ≡ ok (some (as_read u))
    unfolding to_domain_user to_user_row
    read_by_email = rw (
      get_by_email_lem u.email (saved d u es w) saved-IsSound,
      found_by_email u.id (saved d u es w).users (to_user_row u) saved-IsSound.emails found_saved,
    )

  others_unchanged : (k : String) → u.id ≢ k → (get_by_id k (saved d u es w)).0 ≡ (get_by_id k w).0
  others_unchanged k ne = elim (Bool-cases (u.id == k)) [
    | inl e ↦ elim (ne ((eq_iff u.id k).0 e)) [ ]
    | inr e ↦
        rw (get_by_id_lem k (saved d u es w), get_by_id_lem k w, find_user-saved k d u es w, e)
  ]

module _ (server : TextSearch) (d : Draw) (u : User) (es : List DomainEvent) (w w' : World) where
  -- On sound tables, a save that returns is read back by its id and by its email, as it was saved but without
  -- events; every other account is read as before; the events are added to the outbox, in their order; and the
  -- tables stay sound.
  pub user_repository-save :
      IsSound w
      → (user_repository server).save d u es w ≡ (ok tt, w')
      → (k : String) → u.id ≢ k
      → (((user_repository server).get_by_id u.id w').0 ≡ ok (some (as_read u)))
        × (((user_repository server).get_by_email u.email w').0 ≡ ok (some (as_read u)))
        × (((user_repository server).get_by_id k w').0 ≡ ((user_repository server).get_by_id k w).0)
        × (w'.outbox ≡ w.outbox ++ outbox_rows d "User" u.id 1 es)
        × IsSound w'
  unfolding user_repository saved
  user_repository-save sound e k ne = elim (save-cases d u es w) [
    | inl f ↦ cc
    | inr f ↦
        subst
          (λ x.
            ((get_by_id u.id x).0 ≡ ok (some (as_read u)))
            × ((get_by_email u.email x).0 ≡ ok (some (as_read u)))
            × ((get_by_id k x).0 ≡ (get_by_id k w).0)
            × (x.outbox ≡ w.outbox ++ outbox_rows d "User" u.id 1 es)
            × IsSound x)
          (ap (λ x. x.1) (sym f ∙ e))
          ((
            read_by_id d u es w sound f,
            read_by_email d u es w sound f,
            others_unchanged d u es w k ne,
            refl,
            saved-IsSound d u es w sound f,
          ))
  ]

-- The repository of accounts keeps the contract on the sound tables.
pub user_repository_lem :
    (server : TextSearch) → UserRepositoryLaws IsSound (user_repository server)
unfolding user_repository get_by_id
user_repository_lem server = record {
  reads = λ k w. refl;
  save_read = λ d u es w w' k sound e ne. user_repository-save server d u es w w' sound e k ne;
  save_refused = λ d u es w w' x e. elim (save-cases d u es w) [
    | inl f ↦ sym (ap (λ y. y.1) (sym f ∙ e))
    | inr f ↦ cc
  ];
}
