-- ===== src/Tests/Directory.antt =====
-- Uses of the theorems on the look-ups of accounts, with a server that matches patterns as they are
-- read, and of the refinement.
use Prim.Native.Char.{Char}
use mathlib.Core.List.{Perm}
use auth_profile_service.Database.Tables.{put}
use auth_profile_service.Database.Users.{email_taken}
use auth_profile_service.Database.Users.{save}
use auth_profile_service.Auth.User.{normalise}
use auth_profile_service.Database.Tables.{scalar_one_or_none}
use auth_profile_service.Database.Users.{get_by_email}
use auth_profile_service.Database.World.{◌>>=◌}
use auth_profile_service.Accounts.{register_user}
use auth_profile_service.Accounts.Integrity.{perform}
use auth_profile_service.Common.{
  String, ◌≡◌, refl, ap, ◌≤◌, ◌<◌, Bool, true, false, Option, none, some, List, [], ◌∷◌, map,
  length, select, strip, has_char, is_empty, lower_char,
}
use auth_profile_service.Auth.Enums.{Role}
use auth_profile_service.Auth.Errors.{Error, ok, err}
use auth_profile_service.Auth.User
use auth_profile_service.Auth.User.{User}
use auth_profile_service.Auth.RolePolicy.{is_staff}
use auth_profile_service.Database.Tables.{find}
use auth_profile_service.Database.Search.{TextSearch, in_state}
use auth_profile_service.Database.Search.Like.{
  Item, LikeLaws, items, matches, fold_items, fold_text,
}
use auth_profile_service.Database.World.{UserRow, Draw}
use auth_profile_service.Database.Users.{to_domain_user}
use auth_profile_service.Directory.{find_recipient, suggest_recipients, list_accounts}
use auth_profile_service.Directory.Recipient.{IsRecipient, namesakes, find_recipient_lem}
use auth_profile_service.Directory.Suggestions.{offered, suggest_recipients_lem}
use auth_profile_service.Directory.Listing.{IsNewestFirst, list_accounts_lem}
use auth_profile_service.Accounts.Integrity.{UseCase, serve}
use auth_profile_service.Accounts.Views.{view}
use auth_profile_service.Accounts.Refinement.{Run, cases, serve-Run}
use auth_profile_service.Security.Settings.{defaults}
use auth_profile_service.Tests.{Sealed, sealing, marking, draw, office, office-IsSound}

-- A locale that folds the letters of ASCII.
abbrev folded : Char → String
folded c = String.◌∷◌ (lower_char c) String.[]

-- A server that reads a pattern and matches it, and takes names in any order.
abbrev fits : Option (List Item) → String → Bool
fits none text = false
fits (some is) text = matches (fold_items folded is) (fold_text folded text)

abbrev reading : TextSearch
reading = record { ilike = λ text pattern. fits (items pattern) text; precedes = λ a b. true }

reading_laws : LikeLaws reading folded
reading_laws = record { ilike_lem = λ text pattern is e. ap (λ o. fits o text) e }

suggest_recipients_lem_example :
    (suggest_recipients reading "al" "sam" office
      ≡ (ok (map to_domain_user (offered reading folded reading_laws "al" "sam" office)), office))
    × (length (map to_domain_user (offered reading folded reading_laws "al" "sam" office)) ≤ 8)
suggest_recipients_lem_example =
    suggest_recipients_lem reading folded reading_laws "al" "sam" office

find_recipient_lem_example :
    ((find_recipient "Ali" office).1 ≡ office)
    × ((u : User) → (find_recipient "Ali" office).0 ≡ ok u → IsRecipient (strip "Ali") office u)
    × (is_empty (strip "Ali") ≡ false
        → has_char b'@' (strip "Ali") ≡ false
        → 1 < length (namesakes (strip "Ali") office)
        → (find_recipient "Ali" office).0
          ≡ err
              (Error.recipient_not_unique (strip "Ali") (length (namesakes (strip "Ali") office))))
find_recipient_lem_example = find_recipient_lem "Ali" office office-IsSound

list_accounts_lem_example :
    (is_staff Role.support ≡ false
      → list_accounts Role.support none office ≡ (
        err (Error.invalid_role_transition "Only SUPPORT or ADMIN can list the user directory."),
        office,
      ))
    × (is_staff Role.support ≡ true
        → (rows : List UserRow) × (list_accounts Role.support none office
            ≡ (ok (map to_domain_user rows), office))
          × Perm rows (select (λ (r : UserRow). in_state none r.state) office.users)
          × IsNewestFirst rows)
list_accounts_lem_example = list_accounts_lem Role.support none office

abbrev morning : List (Draw × UseCase Sealed)
morning =
    (draw "n" 7000, UseCase.register "s" "Nia@A.com" "pw" "Nia")
    ∷ (draw "b" 8000, UseCase.ban Role.support "ali" true "sam" "spam")
    ∷ []

serve-Run_example :
    Run "ali"
      (view "ali" office)
      (cases morning)
      (view "ali" (serve sealing defaults marking morning office))
unfolding find perform register_user ◌>>=◌ get_by_email scalar_one_or_none select normalise save
    email_taken User.register put
serve-Run_example =
    serve-Run sealing defaults marking "ali" morning office office-IsSound (refl, (refl, tt))
