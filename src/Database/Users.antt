-- ===== src/Database/Users.antt =====
-- app/infrastructure/db/repositories/user_repository.py: accounts, role requests and the sign-in
-- audit. Each write is committed by itself, together with the outbox rows of its events.
pub mod Integrity
pub mod Lookups
use mathlib.Core.Option
use auth_profile_service.Common.{
  ℕ, suc, String, Bool, true, false, not, ◌&&◌, Option, none, some, List, [], ◌∷◌, ◌++◌, map, ◌==◌,
  if◌then◌else◌, select, lower, strip,
}
use auth_profile_service.Auth.Enums.{
  Role, UserState, RoleRequestStatus, role_eq, state_eq, status_eq,
}
use auth_profile_service.Auth.Errors.{Error, Result, ok, err}
use auth_profile_service.Auth.Events.{DomainEvent, event_type, to_payload}
use auth_profile_service.Auth.RoleRequest.{RoleRequest}
use auth_profile_service.Auth.User.{User}
use auth_profile_service.Database.Tables.{find, put, scalar_one_or_none}
use auth_profile_service.Database.World.{UserRow, OutboxRow, AuditRow, World, Draw, Exec}

unfoldable pub to_domain_user : UserRow → User
to_domain_user row = record {
  id = row.id;
  email = row.email;
  password_hash = row.password_hash;
  display_name = row.display_name;
  role = row.role;
  state = row.state;
  created_at = row.created_at;
  pending_events = [];
}

-- The fields that `save` writes to a row.
unfoldable pub to_user_row : User → UserRow
to_user_row u = record {
  id = u.id;
  email = u.email;
  password_hash = u.password_hash;
  display_name = u.display_name;
  role = u.role;
  state = u.state;
  created_at = u.created_at;
}

unfoldable pub get_by_id : String → Exec (Option User)
unfolding to_domain_user
get_by_id user_id w = (ok (Option.map to_domain_user (find (λ r. r.id) user_id w.users)), w)

abbrev found_user : Result (Option UserRow) → Result (Option User)
found_user (ok row) = ok (Option.map to_domain_user row)
found_user (err e) = err e

unfoldable pub get_by_email : String → Exec (Option User)
unfolding to_domain_user
get_by_email email w = (found_user (scalar_one_or_none (select (λ r. r.email == email) w.users)), w)

unfoldable pub find_active_by_display_name : String → Exec (List User)
unfolding to_domain_user
find_active_by_display_name display_name w = (
  ok (
      map to_domain_user (
        select
          (λ r.
            lower r.display_name == lower (strip display_name) && state_eq r.state UserState.active)
          w.users)),
  w,
)

-- `role is None or row.role == role`
abbrev pub has_role : Option Role → Role → Bool
has_role none r = true
has_role (some wanted) r = role_eq r wanted

unfoldable pub list_ids_by_state : UserState → Option Role → Exec (List String)
list_ids_by_state state role w = (
  ok (
      map (λ (r : UserRow). r.id)
        (select (λ r. state_eq r.state state && has_role role r.role) w.users)),
  w,
)

-- One outbox row for each event; the event numbered `n` draws the uuid numbered `n`.
unfoldable pub outbox_rows : Draw → String → String → ℕ → List DomainEvent → List OutboxRow
outbox_rows d aggregate_type aggregate_id n [] = []
outbox_rows d aggregate_type aggregate_id n (e ∷ es) =
    record {
      id = d.uuid n;
      aggregate_type = aggregate_type;
      aggregate_id = aggregate_id;
      topic = "user-events";
      event_type = event_type e;
      payload = to_payload e;
      dispatched = false;
      created_at = d.now;
      dispatched_at = none;
    }
    ∷ outbox_rows d aggregate_type aggregate_id (suc n) es

-- The unique constraint on `users.email`: another account has the email.
unfoldable pub email_taken : User → List UserRow → Bool
email_taken u [] = false
email_taken u (r ∷ t) = if r.email == u.email && not (r.id == u.id) then true else email_taken u t

unfoldable pub save : Draw → User → List DomainEvent → Exec (Unit {0})
unfolding to_user_row
save d user events w = if email_taken user w.users then (err Error.integrity_error, w) else (
  ok tt,
  record w {
    db = record w.db {
      users = put (λ r. r.id) (to_user_row user) w.users;
      outbox = w.outbox ++ outbox_rows d "User" user.id 1 events;
    };
  },
)

unfoldable pub record_login_audit : Draw → Option String → String → Bool → Exec (Unit {0})
record_login_audit d user_id ip success w = (
  ok tt,
  record w {
    db = record w.db {
      login_audit =
          w.login_audit
          ++ record {
            id = d.uuid 0;
            user_id = user_id;
            ip = ip;
            success = success;
            at_time = d.now;
          }
            ∷ [];
    };
  },
)

unfoldable pub get_role_request_by_id : String → Exec (Option RoleRequest)
get_role_request_by_id request_id w = (ok (find (λ r. r.id) request_id w.role_requests), w)

unfoldable pub list_pending_role_requests : Exec (List RoleRequest)
list_pending_role_requests w =
    (ok (select (λ r. status_eq r.status RoleRequestStatus.pending) w.role_requests), w)

-- The rows that `save_role_request` adds or writes.
unfoldable pub store_role_request : Draw → RoleRequest → List DomainEvent → World → World
store_role_request d r events w = record w {
  db = record w.db {
    role_requests = put (λ q. q.id) r w.role_requests;
    outbox = w.outbox ++ outbox_rows d "RoleRequest" r.id 1 events;
  };
}

-- The foreign key `role_requests.user_id` is checked when a row is added. A row that is there keeps
-- the user that it was added with.
unfoldable pub save_role_request : Draw → RoleRequest → List DomainEvent → Exec (Unit {0})
unfolding store_role_request
save_role_request d r events w = elim (find (λ q. q.id) r.id w.role_requests) [
  | none ↦ elim (find (λ u. u.id) r.user_id w.users) [
    | none ↦ (err Error.integrity_error, w)
    | some owner ↦ (ok tt, store_role_request d r events w)
  ]
  | some row ↦ (ok tt, store_role_request d (record r { user_id = row.user_id }) events w)
]
