-- ===== src/Directory/Listing.antt =====
-- list_users.py: the directory of the accounts that staff reads.
use mathlib.Core.List.{Perm}
use mathlib.Core.List.Perm
use auth_profile_service.Common.{
  ◌≤◌, ◌≡◌, refl, Bool, true, false, Option, List, [], ◌∷◌, map, arith, leb, leb→le, select, All,
  All-select, Bool-cases, inl, inr,
}
use auth_profile_service.Auth.Enums.{Role, UserState}
use auth_profile_service.Auth.Errors.{Error, ok, err}
use auth_profile_service.Auth.RolePolicy.{is_staff}
use auth_profile_service.Database.World.{UserRow, World, ◌>>=◌}
use auth_profile_service.Database.Users.{to_domain_user}
use auth_profile_service.Database.Search.{in_order, insert_in_order, is_newer, in_state, list_users}
use auth_profile_service.Directory.{list_accounts}

-- No row is older than `r`'s creation.
abbrev IsAfter : UserRow → List UserRow → Type 0
IsAfter r = All (λ (s : UserRow). s.created_at ≤ r.created_at)

-- Every row is at least as new as those that come after it.
abbrev pub IsNewestFirst : List UserRow → Type 0
IsNewestFirst [] = Unit
IsNewestFirst (r ∷ rows) = IsAfter r rows × IsNewestFirst rows

IsAfter-le :
    (r s : UserRow) (rows : List UserRow)
    → s.created_at ≤ r.created_at
    → IsAfter s rows
    → IsAfter r rows
IsAfter-le r s [] le h = tt
IsAfter-le r s (q ∷ rows) le h = (omega (arith, h.0, le), IsAfter-le r s rows le h.1)

IsAfter-insert :
    (q r : UserRow) (rows : List UserRow)
    → r.created_at ≤ q.created_at
    → IsAfter q rows
    → IsAfter q (insert_in_order is_newer r rows)
unfolding insert_in_order
IsAfter-insert q r [] le h = (le, tt)
IsAfter-insert q r (s ∷ rows) le h = ground (arith, IsAfter-insert q r rows le h.1)

insert-IsNewestFirst :
    (r : UserRow) (rows : List UserRow)
    → IsNewestFirst rows
    → IsNewestFirst (insert_in_order is_newer r rows)
unfolding insert_in_order is_newer
insert-IsNewestFirst r [] h = (tt, tt)
insert-IsNewestFirst r (s ∷ rows) h = elim (Bool-cases (leb s.created_at r.created_at)) [
  | inl e ↦ rw e (
    (
      leb→le s.created_at r.created_at e,
      IsAfter-le r s rows (leb→le s.created_at r.created_at e) h.0,
    ),
    h,
  )
  | inr e ↦ rw e (IsAfter-insert s r rows (ground (arith, e)) h.0, insert-IsNewestFirst r rows h.1)
]

in_order-IsNewestFirst : (rows : List UserRow) → IsNewestFirst (in_order is_newer rows)
unfolding in_order
in_order-IsNewestFirst [] = tt
in_order-IsNewestFirst (r ∷ rows) =
    insert-IsNewestFirst r (in_order is_newer rows) (in_order-IsNewestFirst rows)

select-IsNewestFirst :
    (p : UserRow → Bool) (rows : List UserRow) → IsNewestFirst rows → IsNewestFirst (select p rows)
unfolding select
select-IsNewestFirst p [] h = tt
select-IsNewestFirst p (r ∷ rows) h = ground (
  arith,
  select-IsNewestFirst p rows h.1,
  All-select (λ (s : UserRow). s.created_at ≤ r.created_at) p rows h.0,
)

cons-perm :
    (p : UserRow → Bool) (r : UserRow) (xs ys : List UserRow)
    → Perm (select p xs) (select p ys)
    → Perm (select p (r ∷ xs)) (select p (r ∷ ys))
unfolding select
cons-perm p r xs ys h = elim (Bool-cases (p r)) [ inl e ↦ rw e (Perm.cons r h) | inr e ↦ rw e h ]

swap-perm :
    (p : UserRow → Bool) (r s : UserRow) (rows : List UserRow)
    → Perm (select p (r ∷ s ∷ rows)) (select p (s ∷ r ∷ rows))
unfolding select
swap-perm p r s rows = elim (Bool-cases (p r)) [
  | inl e ↦ elim (Bool-cases (p s)) [
    | inl f ↦ rw (e, f) (Perm.swap s r (select p rows))
    | inr f ↦ rw (e, f) Perm.rfl
  ]
  | inr e ↦ elim (Bool-cases (p s)) [ inl f ↦ rw (e, f) Perm.rfl | inr f ↦ rw (e, f) Perm.rfl ]
]

insert-perm :
    (p : UserRow → Bool) (r : UserRow) (rows : List UserRow)
    → Perm (select p (insert_in_order is_newer r rows)) (select p (r ∷ rows))
unfolding insert_in_order select
insert-perm p r [] = Perm.rfl
insert-perm p r (s ∷ rows) = elim (Bool-cases (is_newer r s)) [
  | inl e ↦ rw e Perm.rfl
  | inr e ↦
      rw e (Perm.trans (cons-perm p s _ (r ∷ rows) (insert-perm p r rows)) (swap-perm p s r rows))
]

in_order-perm :
    (p : UserRow → Bool) (rows : List UserRow)
    → Perm (select p (in_order is_newer rows)) (select p rows)
unfolding in_order
in_order-perm p [] = Perm.rfl
in_order-perm p (r ∷ rows) =
    Perm.trans (insert-perm p r (in_order is_newer rows))
      (cons-perm p r _ rows (in_order-perm p rows))

-- The rows that a list of accounts is made of.
abbrev listed : Option UserState → World → List UserRow
listed state w = select (λ (r : UserRow). in_state state r.state) (in_order is_newer w.users)

-- Only staff gets the directory: anybody else gets a refusal. Staff gets the rows of the accounts,
-- or of those in the state that was asked for: each of them once and no other, and the newest
-- first. Nothing changes.
pub list_accounts_lem :
    (actor_role : Role) (state : Option UserState) (w : World)
    → (is_staff actor_role ≡ false
        → list_accounts actor_role state w ≡ (
          err (Error.invalid_role_transition "Only SUPPORT or ADMIN can list the user directory."),
          w,
        ))
      × (is_staff actor_role ≡ true
          → (rows : List UserRow) × (list_accounts actor_role state w
              ≡ (ok (map to_domain_user rows), w))
            × Perm rows (select (λ (r : UserRow). in_state state r.state) w.users)
            × IsNewestFirst rows)
unfolding list_accounts list_users ◌>>=◌
list_accounts_lem actor_role state w = (
  λ e. rw e,
  λ e. rw e (
    listed state w,
    refl,
    in_order-perm (λ (r : UserRow). in_state state r.state) w.users,
    select-IsNewestFirst (λ (r : UserRow). in_state state r.state) _
        (in_order-IsNewestFirst w.users),
  ),
)
