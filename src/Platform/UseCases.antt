-- ===== src/Platform/UseCases.antt =====
-- app/application/use_cases/auth: the use cases and the announcement of accounts.
use mathlib.Core.Option
use auth_profile_service.Common.{
  Has-map_append, ℕ, String, ◌≡◌, ◌≢◌, sym, ap, ◌∙◌, inl, inr, false, Option, none, some, List,
  ◌++◌, map, arith, is_empty, Has, Option-cases,
}
use auth_profile_service.Database.World.{OutboxRow, Published, World, Draw}
use auth_profile_service.Database.Users.Integrity.{IsSound, find_user}
use auth_profile_service.Security.Settings.{Settings}
use auth_profile_service.Security.Passwords.{Hasher}
use auth_profile_service.Security.Jwt.{Jwt}
use auth_profile_service.Accounts.Integrity.{UseCase, perform, perform-Stable}
use auth_profile_service.Accounts.Views.{Account, Step, Opens, seen, view}
use auth_profile_service.Accounts.Refinement.{perform-Step}
use auth_profile_service.Messaging.Outbox.{message_of}
use auth_profile_service.Platform.Writes.{grows-Stable}
use auth_profile_service.Platform.Announced.{
  IsAnnounced, AllAnnounced, IsOpened-IsAnnounced, register_user-IsOpened,
  seed_super_admin-IsOpened,
}

not_opened :
    {Token : Type 0} (c : UseCase Token) (k : String)
    → ((x : Account) → Opens c x → ⊥)
    → {a b : Option Account} → Step c k a b
    → a ≡ none
    → b ≡ none
not_opened c k none_opens Step.stay e = e
not_opened c k none_opens (Step.opens f o) e = elim (none_opens _ o) [ ]
not_opened c k none_opens (Step.changes f ch) e = cc

find_of_view : (k : String) (w : World) → view k w ≡ none → find_user k w.users ≡ none
find_of_view k w e = elim (Option-cases (find_user k w.users)) [
  | inl f ↦ f
  | inr (row, f) ↦ elim (seen_some (ap (Option.map seen) (sym f) ∙ e)) [ ]
]
  where
    seen_some : {a : Account} → some a ≡ none → ⊥
    seen_some e = cc

module _ {Token : Type 0} (jwt : Jwt Token) (s : Settings) (h : Hasher)
    (isoformat : ℕ → String) where
  module _ (k : String) (d : Draw) (w : World) (sound : IsSound w)
      (fresh : find_user (d.uuid 0) w.users ≡ none) (free : find_user k w.users ≡ none) where
    unopened :
        (c : UseCase Token)
        → ((x : Account) → Opens c x → ⊥)
        → find_user k (perform jwt s h d c w).users ≢ none
        → IsAnnounced isoformat s k (perform jwt s h d c w)
    unopened c none_opens m =
        elim (m (
          find_of_view k (perform jwt s h d c w) (
            not_opened c k none_opens (perform-Step jwt s h k d c w sound fresh)
              (ap (Option.map seen) free)))) [ ]

    -- An account that is new after a use case is announced.
    pub new-IsAnnounced :
        is_empty (d.uuid 1) ≡ false
        → (c : UseCase Token) → find_user k (perform jwt s h d c w).users ≢ none
        → IsAnnounced isoformat s k (perform jwt s h d c w)
    unfolding perform
    new-IsAnnounced i (UseCase.register salt email password name) =
        IsOpened-IsAnnounced isoformat s k d w _ i free
          (register_user-IsOpened isoformat s h salt d email password name w sound)
    new-IsAnnounced i (UseCase.seed salt) =
        IsOpened-IsAnnounced isoformat s k d w _ i free
          (seed_super_admin-IsOpened isoformat s h salt d w sound)
    new-IsAnnounced i (UseCase.decide role target b by reason) =
        unopened (UseCase.decide role target b by reason) (λ x o. o)
    new-IsAnnounced i (UseCase.ban role target b by reason) =
        unopened (UseCase.ban role target b by reason) (λ x o. o)
    new-IsAnnounced i (UseCase.grant role target new_role by) =
        unopened (UseCase.grant role target new_role by) (λ x o. o)
    new-IsAnnounced i (UseCase.request user_id role) =
        unopened (UseCase.request user_id role) (λ x o. o)
    new-IsAnnounced i (UseCase.decide_request role id b by note) =
        unopened (UseCase.decide_request role id b by note) (λ x o. o)
    new-IsAnnounced i (UseCase.sign_in email password ip) =
        unopened (UseCase.sign_in email password ip) (λ x o. o)
    new-IsAnnounced i (UseCase.refresh_session token) =
        unopened (UseCase.refresh_session token) (λ x o. o)
    new-IsAnnounced i (UseCase.sign_out token) = unopened (UseCase.sign_out token) (λ x o. o)

  grows-Has :
      (m : Published) (rows new : List OutboxRow)
      → Has m (map (message_of isoformat s) rows)
      → Has m (map (message_of isoformat s) (rows ++ new))
  grows-Has m rows new = Has-map_append (message_of isoformat s) m rows new

  -- A use case with new ids that are no empty texts keeps every account announced.
  pub perform-AllAnnounced :
      (d : Draw) (c : UseCase Token) (w : World)
      → IsSound w
      → find_user (d.uuid 0) w.users ≡ none
      → is_empty (d.uuid 1) ≡ false
      → AllAnnounced isoformat s w
      → AllAnnounced isoformat s (perform jwt s h d c w)
  perform-AllAnnounced d c w sound fresh i all k m = elim (Option-cases (find_user k w.users)) [
    | inl free ↦ new-IsAnnounced k d w sound fresh free i c m
    | inr (r, e) ↦
        let (row, announces, has) = all k (ground arith) in
        (
          row,
          announces,
          perform-Stable jwt s h
              (grows-Stable
                (λ rows kafka profiles.
                  Has (message_of isoformat s row) (map (message_of isoformat s) rows))
                (λ rows new kafka profiles u. grows-Has (message_of isoformat s row) rows new))
              d c w has,
        )
  ]
