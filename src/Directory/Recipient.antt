-- ===== src/Directory/Recipient.antt =====
-- find_recipient.py: a gift reaches the one ACTIVE account that was named, or nobody.
use mathlib.Core.Path.{subst}
use auth_profile_service.Common.{
  ◌<◌, String, ◌≡◌, refl, ◌⊎◌, inl, inr, true, false, ◌&&◌, Option, none, some, List, [], ◌∷◌, map,
  arith, ◌==◌, if◌then◌else◌, length, length-map, select, All, lower, strip, strip_idempotent,
  is_empty, has_char, Bool-cases, Option-cases,
}
use auth_profile_service.Auth.Enums.{UserState, state_eq}
use auth_profile_service.Auth.Errors.{Error, Result, ok, err}
use auth_profile_service.Auth.User.{User}
use auth_profile_service.Database.World.{UserRow, World, ◌>>=◌}
use auth_profile_service.Database.Users.{to_domain_user, find_active_by_display_name}
use auth_profile_service.Database.Users.Integrity.{IsSound, find_email}
use auth_profile_service.Database.Users.Lookups.{get_by_email_lem}
use auth_profile_service.Directory.{find_recipient, by_email, by_name, active_only, only_one}

-- The ACTIVE accounts with a display name, in any case.
abbrev pub namesakes : String → World → List UserRow
namesakes name w =
    select
      (λ (r : UserRow). lower r.display_name == lower name && state_eq r.state UserState.active)
      w.users

-- Whom the look-up may return for what was typed: the ACTIVE account with the email, or the only
-- ACTIVE account with the display name.
abbrev pub IsRecipient : String → World → User → Type 0
IsRecipient candidate w u =
    (row : UserRow) × (u ≡ to_domain_user row)
    × (row.state ≡ UserState.active)
    × (((has_char b'@' candidate ≡ true) × (find_email (lower candidate) w.users ≡ some row))
        ⊎ ((has_char b'@' candidate ≡ false) × (namesakes candidate w ≡ row ∷ [])))

-- What the look-up answers for the account that was found by the email.
unfoldable pub for_account : String → Option UserRow → Result User
unfolding to_domain_user
for_account candidate none = err (Error.recipient_not_found candidate)
for_account candidate (some row) =
    if state_eq row.state UserState.active
    then ok (to_domain_user row)
    else err (Error.recipient_not_found candidate)

-- What it answers for the ACTIVE accounts with the display name.
unfoldable pub for_namesakes : String → List UserRow → Result User
unfolding to_domain_user
for_namesakes candidate [] = err (Error.recipient_not_found candidate)
for_namesakes candidate (row ∷ []) = ok (to_domain_user row)
for_namesakes candidate (row ∷ other ∷ rest) =
    err (Error.recipient_not_unique candidate (length (row ∷ other ∷ rest)))

by_email_lem :
    (candidate : String) (w : World)
    → IsSound w
    → by_email candidate w ≡ (for_account candidate (find_email (lower candidate) w.users), w)
unfolding by_email ◌>>=◌ for_account active_only to_domain_user
by_email_lem candidate w sound = elim (Option-cases (find_email (lower candidate) w.users)) [
  | inl e ↦ rw (get_by_email_lem (lower candidate) w sound, e)
  | inr (row, e) ↦ rw (get_by_email_lem (lower candidate) w sound, e) (ground arith)
]

only_one_lem :
    (candidate : String) (rows : List UserRow) (w : World)
    → only_one candidate (map to_domain_user rows) w ≡ (for_namesakes candidate rows, w)
unfolding only_one for_namesakes ◌>>=◌
only_one_lem candidate [] w = refl
only_one_lem candidate (row ∷ []) w = refl
only_one_lem candidate (row ∷ other ∷ rest) w = rw (length-map to_domain_user rest)

by_name_lem :
    (candidate : String) (w : World)
    → by_name candidate w ≡ (for_namesakes candidate (namesakes (strip candidate) w), w)
unfolding by_name ◌>>=◌ find_active_by_display_name
by_name_lem candidate w = only_one_lem candidate (namesakes (strip candidate) w) w

for_account-ok :
    (candidate : String) (found : Option UserRow) (u : User)
    → for_account candidate found ≡ ok u
    → (row : UserRow) × (u ≡ to_domain_user row)
      × (row.state ≡ UserState.active)
      × (found ≡ some row)
unfolding for_account to_domain_user
for_account-ok candidate none u e = cc
for_account-ok candidate (some row) u e = (row, ground arith, ground arith, refl)

for_namesakes-ok :
    (candidate : String) (rows : List UserRow) (u : User)
    → for_namesakes candidate rows ≡ ok u
    → (row : UserRow) × (u ≡ to_domain_user row) × (rows ≡ row ∷ [])
unfolding for_namesakes to_domain_user
for_namesakes-ok candidate [] u e = cc
for_namesakes-ok candidate (row ∷ []) u e = (row, cc, refl)
for_namesakes-ok candidate (row ∷ other ∷ rest) u e = cc

namesakes-active :
    (name : String) (rows : List UserRow)
    → All
        (λ (r : UserRow). r.state ≡ UserState.active)
        (select
          (λ (r : UserRow). lower r.display_name == lower name && state_eq r.state UserState.active)
          rows)
unfolding select
namesakes-active name [] = tt
namesakes-active name (r ∷ rows) = ground (arith, namesakes-active name rows)

only_active :
    (name : String) (rows : List UserRow) (row : UserRow)
    → select
        (λ (r : UserRow). lower r.display_name == lower name && state_eq r.state UserState.active)
        rows
      ≡ row ∷ []
    → row.state ≡ UserState.active
only_active name rows row e =
    (subst (All (λ (r : UserRow). r.state ≡ UserState.active)) e (namesakes-active name rows)).0

several_lem :
    (candidate : String) (rows : List UserRow)
    → 1 < length rows
    → for_namesakes candidate rows ≡ err (Error.recipient_not_unique candidate (length rows))
unfolding for_namesakes
several_lem candidate [] many = ground arith
several_lem candidate (row ∷ []) many = ground arith
several_lem candidate (row ∷ other ∷ rest) many = refl

module _ (query : String) (w : World) (sound : IsSound w) where
  abbrev candidate : String
  candidate = strip query

  -- What a look-up answers, in terms of the table.
  abbrev answer : Result User
  answer =
      if is_empty candidate
      then err (Error.recipient_not_found query)
      else if has_char b'@' candidate
      then for_account candidate (find_email (lower candidate) w.users)
      else for_namesakes candidate (namesakes candidate w)

  find_recipient-answer : find_recipient query w ≡ (answer, w)
  unfolding find_recipient ◌>>=◌
  find_recipient-answer = elim (Bool-cases (is_empty candidate)) [
    | inl e ↦ rw e
    | inr e ↦ elim (Bool-cases (has_char b'@' candidate)) [
      | inl f ↦ rw (e, f, by_email_lem candidate w sound)
      | inr f ↦ rw (e, f, by_name_lem candidate w, strip_idempotent query)
    ]
  ]

  chosen-IsRecipient :
      (u : User)
      → (if has_char b'@' candidate
          then for_account candidate (find_email (lower candidate) w.users)
          else for_namesakes candidate (namesakes candidate w))
        ≡ ok u
      → IsRecipient candidate w u
  chosen-IsRecipient u = elim (Bool-cases (has_char b'@' candidate)) [
    | inl f ↦ rw f (λ e.
        let (row, same, active, found) = for_account-ok candidate _ u e in
        (row, same, active, inl (refl, found)))
    | inr f ↦ rw f (λ e.
        let (row, same, found) = for_namesakes-ok candidate _ u e in
        (row, same, only_active candidate w.users row found, inr (refl, found)))
  ]

  answer-IsRecipient : (u : User) → answer ≡ ok u → IsRecipient candidate w u
  answer-IsRecipient u = elim (Bool-cases (is_empty candidate)) [
    | inl e ↦ rw e (λ r. cc)
    | inr e ↦ rw e (chosen-IsRecipient u)
  ]

  -- On sound tables a look-up changes nothing. An account that it returns is ACTIVE, and is the
  -- account with the email that was typed or the only ACTIVE account with the display name; and where
  -- several ACTIVE accounts have the name that was typed, it says how many, and returns none of them.
  pub find_recipient_lem :
      ((find_recipient query w).1 ≡ w)
      × ((u : User) → (find_recipient query w).0 ≡ ok u → IsRecipient candidate w u)
      × (is_empty candidate ≡ false
          → has_char b'@' candidate ≡ false
          → 1 < length (namesakes candidate w)
          → (find_recipient query w).0
            ≡ err (Error.recipient_not_unique candidate (length (namesakes candidate w))))
  find_recipient_lem =
      rw find_recipient-answer
        (refl, answer-IsRecipient, λ e f many. rw (e, f) (several_lem candidate _ many))
