-- ===== src/Database/Users/Lookups.antt =====
-- How the look-ups of accounts answer after a write, and when a write does not meet the unique email.
use mathlib.Core.Option
use auth_profile_service.Common.{
  String, ◌≡◌, refl, ◌≢◌, true, false, Option, none, some, List, [], ◌∷◌, arith, ◌==◌, eq_iff,
  if◌then◌else◌, ◌++◌,
}
use auth_profile_service.Auth.Errors.{ok}
use auth_profile_service.Auth.Events.{DomainEvent}
use auth_profile_service.Auth.RoleRequest.{RoleRequest}
use auth_profile_service.Auth.User.{User}
use auth_profile_service.Database.Tables.{find, put, Unique, find-put, scalar-select}
use auth_profile_service.Database.World.{UserRow, World, Draw}
use auth_profile_service.Database.Users.{
  to_user_row, to_domain_user, email_taken, get_by_id, get_by_email, save, outbox_rows,
  save_role_request, store_role_request,
}
use auth_profile_service.Database.Users.Integrity.{find_user, find_email, IsSound}

pub not_taken_of_free :
    (u : User) (t : List UserRow) → find_email u.email t ≡ none → email_taken u t ≡ false
unfolding email_taken find
not_taken_of_free u [] h = refl
not_taken_of_free u (s ∷ t) h = ground (arith, not_taken_of_free u t)

email_of_found :
    (k : String) (t : List UserRow) (r : UserRow)
    → find_user k t ≡ some r
    → find_email r.email t ≢ none
unfolding find
email_of_found k [] r h = λ e. cc
email_of_found k (s ∷ t) r h = ground (arith, email_of_found k t r, eq_iff s.email r.email)

-- The email of an account that is there is not taken by another.
pub not_taken_of_found :
    (u : User) (t : List UserRow) (r : UserRow)
    → Unique (λ s. s.email) t
    → find_user u.id t ≡ some r
    → u.email ≡ r.email
    → email_taken u t ≡ false
unfolding find email_taken
not_taken_of_found u [] r es h e = refl
not_taken_of_found u (s ∷ t) r es h e = ground (
  arith,
  not_taken_of_found u t r es.1,
  not_taken_of_free u t,
  email_of_found u.id t r,
  eq_iff s.email u.email,
  eq_iff s.id u.id,
)

-- A new account is found by its email.
pub find_email-put_new :
    (u : User) (t : List UserRow)
    → find_user u.id t ≡ none
    → find_email u.email t ≡ none
    → find_email u.email (put (λ r. r.id) (to_user_row u) t) ≡ some (to_user_row u)
unfolding find put to_user_row
find_email-put_new u [] h k = ground (arith, eq_iff u.email u.email)
find_email-put_new u (s ∷ t) h k = ground (arith, find_email-put_new u t)

pub get_by_id_lem :
    (k : String) (w : World)
    → get_by_id k w ≡ (ok (Option.map to_domain_user (find_user k w.users)), w)
unfolding get_by_id
get_by_id_lem k w = refl

-- On sound tables the look-up by email finds the account that has it, and never raises.
pub get_by_email_lem :
    (k : String) (w : World)
    → IsSound w
    → get_by_email k w ≡ (ok (Option.map to_domain_user (find_email k w.users)), w)
unfolding get_by_email
get_by_email_lem k w sound = rw (scalar-select (λ (r : UserRow). r.email) k w.users sound.emails)

-- The state that a successful save leaves.
unfoldable pub saved : Draw → User → List DomainEvent → World → World
saved d u es w = record w {
  db = record w.db {
    users = put (λ r. r.id) (to_user_row u) w.users;
    outbox = w.outbox ++ outbox_rows d "User" u.id 1 es;
  };
}

pub save_lem :
    (d : Draw) (u : User) (es : List DomainEvent) (w : World)
    → email_taken u w.users ≡ false
    → save d u es w ≡ (ok tt, saved d u es w)
unfolding save saved
save_lem d u es w h = rw h

pub find_user-saved :
    (k : String) (d : Draw) (u : User) (es : List DomainEvent) (w : World)
    → find_user k (saved d u es w).users
      ≡ (if u.id == k then some (to_user_row u) else find_user k w.users)
unfolding saved to_user_row
find_user-saved k d u es w = find-put (λ r. r.id) k (to_user_row u) w.users

-- An email that another account has is taken.
pub taken_by_other :
    (u : User) (t : List UserRow) (r : UserRow)
    → find_email u.email t ≡ some r
    → r.id ≢ u.id
    → email_taken u t ≡ true
unfolding find email_taken
taken_by_other u [] r h ne = cc
taken_by_other u (s ∷ t) r h ne = ground (arith, taken_by_other u t r, eq_iff s.id u.id)

-- Where emails are unique, an account that is found by its id is the one found by its email.
pub found_by_email :
    (k : String) (t : List UserRow) (r : UserRow)
    → Unique (λ s. s.email) t
    → find_user k t ≡ some r
    → find_email r.email t ≡ some r
unfolding find
found_by_email k [] r es h = cc
found_by_email k (s ∷ t) r es h =
    ground (arith, found_by_email k t r es.1, email_of_found k t r, eq_iff s.email r.email)

abbrev pub find_request : String → List RoleRequest → Option RoleRequest
find_request = find (λ r. r.id)

-- A new request of an account that is there is added.
pub save_role_request_new :
    (d : Draw) (r : RoleRequest) (es : List DomainEvent) (w : World) (owner : UserRow)
    → find_request r.id w.role_requests ≡ none
    → find_user r.user_id w.users ≡ some owner
    → save_role_request d r es w ≡ (ok tt, store_role_request d r es w)
unfolding save_role_request
save_role_request_new d r es w owner h k = rw (h, k, save_role_request)

-- A request that is there is written, and keeps its account.
pub save_role_request_found :
    (d : Draw) (r : RoleRequest) (es : List DomainEvent) (w : World) (row : RoleRequest)
    → find_request r.id w.role_requests ≡ some row
    → save_role_request d r es w
      ≡ (ok tt, store_role_request d (record r { user_id = row.user_id }) es w)
unfolding save_role_request
save_role_request_found d r es w row h = rw (h, save_role_request)
