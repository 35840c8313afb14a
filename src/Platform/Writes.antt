-- ===== src/Platform/Writes.antt =====
-- user_repository.py and the Redis stores: what the writes of the use cases do to the outbox.
use auth_profile_service.Common.{
  ℕ, suc, String, ◌≡◌, refl, false, List, [], ◌∷◌, ◌++◌, All, Option-cases, inl, inr, Bool-cases,
}
use auth_profile_service.Auth.Events.{DomainEvent}
use auth_profile_service.Auth.RoleRequest.{RoleRequest}
use auth_profile_service.Auth.User.{User}
use auth_profile_service.Database.World.{OutboxRow, ProfileRow, Published, World, Draw}
use auth_profile_service.Database.Keeps.{Keeps}
use auth_profile_service.Database.Redis.{set_key}
use auth_profile_service.Database.Users.{
  outbox_rows, email_taken, save, record_login_audit, store_role_request, save_role_request,
}
use auth_profile_service.Database.Users.Integrity.{find_user}
use auth_profile_service.Database.Users.Lookups.{find_request}
use auth_profile_service.Accounts.Stable.{Stable}

abbrev pub AllUnmarked : List OutboxRow → Type 0
AllUnmarked = All (λ (r : OutboxRow). r.dispatched ≡ false)

outbox_rows-AllUnmarked :
    (d : Draw) (t id : String) (n : ℕ) (es : List DomainEvent)
    → AllUnmarked (outbox_rows d t id n es)
unfolding outbox_rows
outbox_rows-AllUnmarked d t id n [] = tt
outbox_rows-AllUnmarked d t id n (e ∷ es) = (refl, outbox_rows-AllUnmarked d t id (suc n) es)

-- What new unmarked rows keep is kept by every write of the repository and of the revocation.
module _ (P : List OutboxRow → List Published → List ProfileRow → Type 0)
    (grows : (rows new : List OutboxRow) (kafka : List Published) (profiles : List ProfileRow)
      → AllUnmarked new
      → P rows kafka profiles
      → P (rows ++ new) kafka profiles) where
  abbrev At : World → Type 0
  At w = P w.outbox w.kafka w.profiles

  save-At : (d : Draw) (u : User) (es : List DomainEvent) → Keeps At (save d u es)
  unfolding save
  save-At d u es = record {
    at_state = λ w h. elim (Bool-cases (email_taken u w.users)) [
      | inl e ↦ rw (e, save) h
      | inr e ↦
          rw (e, save)
            (grows w.outbox _ w.kafka w.profiles (outbox_rows-AllUnmarked d "User" u.id 1 es) h)
    ];
  }

  save_role_request-At :
      (d : Draw) (r : RoleRequest) (es : List DomainEvent) → Keeps At (save_role_request d r es)
  unfolding save_role_request store_role_request
  save_role_request-At d r es = record {
    at_state = λ w h.
        let more =
          grows w.outbox _ w.kafka w.profiles (outbox_rows-AllUnmarked d "RoleRequest" r.id 1 es)
            h in
        elim (Option-cases (find_request r.id w.role_requests)) [
          | inl e ↦ elim (Option-cases (find_user r.user_id w.users)) [
            | inl f ↦ rw (e, f, save_role_request) h
            | inr (owner, f) ↦ rw (e, f, save_role_request) more
          ]
          | inr (row, e) ↦ rw (e, save_role_request) more
        ];
  }

  pub grows-Stable : Stable At
  unfolding record_login_audit set_key
  grows-Stable = record {
    on_save = save-At;
    on_save_role_request = save_role_request-At;
    on_audit = λ d o ip b. record { at_state = λ w h. h };
    on_set_key = λ now key ttl. record { at_state = λ w h. h };
  }
