-- ===== src/Accounts/Views.antt =====
-- What outsiders may see of one account, its role and its state, and the steps that each use case
-- may take with it.
use mathlib.Core.Option
use mathlib.Core.Path.{subst}
use auth_profile_service.Common.{
  String, ◌≡◌, refl, sym, ◌∙◌, ◌⊎◌, inl, inr, true, false, Option, none, some, List, [], ◌==◌,
  eq_iff, if◌then◌else◌, Bool-cases, Option-cases,
}
use auth_profile_service.Auth.Enums.{Role, UserState}
use auth_profile_service.Auth.Errors.{Error, ok, err}
use auth_profile_service.Auth.RolePolicy.{is_staff}
use auth_profile_service.Auth.Events.{DomainEvent}
use auth_profile_service.Auth.RoleRequest.{RoleRequest}
use auth_profile_service.Auth.User.{User, pull_events}
use auth_profile_service.Database.Tables.{column-find, find-put}
use auth_profile_service.Database.World.{UserRow, World, Draw, Exec, ◌>>=◌}
use auth_profile_service.Database.Users.{
  to_user_row, email_taken, save, save_role_request, store_role_request,
}
use auth_profile_service.Database.Users.Integrity.{find_user}
use auth_profile_service.Database.Users.Lookups.{find_request}
use auth_profile_service.Accounts.{pull_and_save}
use auth_profile_service.Accounts.Integrity.{UseCase}

-- What is seen of an account.
pub record Account : Type 0 where
  pub role : Role
  pub state : UserState

abbrev pub seen : UserRow → Account
seen r = record { role = r.role; state = r.state }

abbrev pub view : String → World → Option Account
view k w = Option.map seen (find_user k w.users)

module _ {Token : Type 0} where
  -- An account that a use case may open.
  abbrev pub Opens : UseCase Token → Account → Type 0
  Opens (UseCase.register salt email password name) a =
      a ≡ record { role = Role.basic_user; state = UserState.active }
  Opens (UseCase.seed salt) a = a ≡ record { role = Role.admin; state = UserState.active }
  Opens _ a = ⊥

  -- The change that a use case may make to an account that is there.
  abbrev pub Changes : UseCase Token → String → Account → Account → Type 0
  Changes (UseCase.decide actor target approve by reason) k a b =
      (is_staff actor ≡ true)
      × (target ≡ k)
      × (a.state ≡ UserState.pending)
      × (b ≡ record a { state = if approve then UserState.active else UserState.rejected })
  Changes (UseCase.ban actor target true by reason) k a b =
      (is_staff actor ≡ true)
      × (target ≡ k)
      × (a.state ≡ UserState.active)
      × (b ≡ record a { state = UserState.banned })
  Changes (UseCase.ban actor target false by reason) k a b =
      (is_staff actor ≡ true)
      × (target ≡ k)
      × (a.state ≡ UserState.banned)
      × (b ≡ record a { state = UserState.active })
  Changes (UseCase.grant actor target new_role by) k a b =
      (actor ≡ Role.admin) × (target ≡ k) × (b ≡ record a { role = new_role })
  Changes (UseCase.decide_request actor id approve by note) k a b =
      (is_staff actor ≡ true) × (approve ≡ true) × (b.state ≡ a.state)
  Changes _ k a b = ⊥

  -- The steps of one account under a use case.
  pub data Step (c : UseCase Token) (k : String) (a : Option Account)
      : Option Account → Type 0 where
    stay : Step c k a a
    opens : {b : Account} → a ≡ none → Opens c b → Step c k a (some b)
    changes : {a' b : Account} → a ≡ some a' → Changes c k a' b → Step c k a (some b)

view-pull_and_save :
    (k : String) (d : Draw) (u : User) (w : World)
    → (view k (pull_and_save d u w).1 ≡ view k w)
      ⊎ ((u.id ≡ k)
          × (view k (pull_and_save d u w).1 ≡ some (record { role = u.role; state = u.state })))
unfolding pull_and_save pull_events save to_user_row
view-pull_and_save k d u w =
    elim (Bool-cases (email_taken (record u { pending_events = [] }) w.users)) [
      | inl e ↦ rw e (inl refl)
      | inr e ↦ elim (Bool-cases (u.id == k)) [
        | inl f ↦
            rw
              (
                e,
                find-put (λ (r : UserRow). r.id) k (to_user_row (record u { pending_events = [] }))
                    w.users,
                f,
              )
              (inr ((eq_iff u.id k).0 f, refl))
        | inr f ↦
            rw
              (
                e,
                find-put (λ (r : UserRow). r.id) k (to_user_row (record u { pending_events = [] }))
                    w.users,
                f,
              )
              (inl refl)
      ]
    ]

module _ {Token : Type 0} (c : UseCase Token) (k : String) where
  found-Step :
      (w : World) {b : Account} (target : String) (row : UserRow)
      → find_user target w.users ≡ some row
      → target ≡ k
      → (target ≡ k → Changes c k (seen row) b)
      → Step c k (view k w) (some b)
  found-Step w target row found t may =
      Step.changes (subst (λ x. view x w ≡ some (seen row)) t (rw found refl)) (may t)

  pub new-Step :
      (d : Draw) (u : User) (w : World)
      → find_user u.id w.users ≡ none
      → Opens c (record { role = u.role; state = u.state })
      → Step c k (view k w) (view k (pull_and_save d u w).1)
  new-Step d u w fresh may = elim (view-pull_and_save k d u w) [
    | inl e ↦ rw e Step.stay
    | inr (e, f) ↦ rw f (Step.opens (subst (λ x. view x w ≡ none) e (rw fresh refl)) may)
  ]

  pub saved-Step :
      (d : Draw) (u : User) (w : World) (target : String) (row : UserRow)
      → find_user target w.users ≡ some row
      → u.id ≡ row.id
      → (target ≡ k → Changes c k (seen row) (record { role = u.role; state = u.state }))
      → Step c k (view k w) (view k (pull_and_save d u w).1)
  saved-Step d u w target row found same may = elim (view-pull_and_save k d u w) [
    | inl e ↦ rw e Step.stay
    | inr (e, f) ↦ rw f (
        found-Step w target row found
          (sym (column-find (λ (r : UserRow). r.id) target w.users row found) ∙ sym same ∙ e) may)
  ]

pull_and_save-cases :
    (d : Draw) (u : User) (w : World)
    → (pull_and_save d u w ≡ (err Error.integrity_error, w))
      ⊎ (pull_and_save d u w ≡ (ok tt, (pull_and_save d u w).1))
unfolding pull_and_save save
pull_and_save-cases d u w = elim (Bool-cases (email_taken (pull_events u).0 w.users)) [
  | inl e ↦ rw e (inl refl)
  | inr e ↦ rw e (inr refl)
]

-- What follows a save and leaves the accounts alone is not seen.
pub then_view :
    {B : Type 0} (k : String) (d : Draw) (u : User) (f : Unit {0} → Exec B) (w : World)
    → ((w' : World) → view k (f tt w').1 ≡ view k w')
    → view k ((pull_and_save d u >>= f) w).1 ≡ view k (pull_and_save d u w).1
unfolding ◌>>=◌
then_view k d u f w quiet = elim (pull_and_save-cases d u w) [
  | inl e ↦ rw e
  | inr e ↦ rw e (quiet (pull_and_save d u w).1)
]

pub view-save_role_request :
    (k : String) (d : Draw) (r : RoleRequest) (es : List DomainEvent) (w : World)
    → view k (save_role_request d r es w).1 ≡ view k w
unfolding save_role_request store_role_request
view-save_role_request k d r es w = elim (Option-cases (find_request r.id w.role_requests)) [
  | inl e ↦ elim (Option-cases (find_user r.user_id w.users)) [
    | inl f ↦ rw (e, f, save_role_request)
    | inr (owner, f) ↦ rw (e, f, save_role_request)
  ]
  | inr (row, e) ↦ rw (e, save_role_request)
]
