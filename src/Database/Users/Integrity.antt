-- ===== src/Database/Users/Integrity.antt =====
-- The integrity of the account tables: keys and emails are unique, and a role request belongs to an
-- account. Every write of the repository keeps it.
use auth_profile_service.Common.{
  String, ◌≡◌, refl, ◌≢◌, Bool, false, Option, none, some, List, [], ◌∷◌, arith, eq_iff, All,
  Option-cases, inl, inr,
}
use auth_profile_service.Auth.Events.{DomainEvent}
use auth_profile_service.Auth.RoleRequest.{RoleRequest}
use auth_profile_service.Auth.User.{User}
use auth_profile_service.Database.Tables.{find, put, Unique, find-put, put-Unique}
use auth_profile_service.Database.World.{UserRow, World, Draw}
use auth_profile_service.Database.Keeps.{Keeps}
use auth_profile_service.Database.Users.{
  to_user_row, email_taken, get_by_id, get_by_email, save, record_login_audit,
  get_role_request_by_id, store_role_request, save_role_request,
}

abbrev pub find_user : String → List UserRow → Option UserRow
find_user = find (λ r. r.id)

abbrev pub find_email : String → List UserRow → Option UserRow
find_email = find (λ r. r.email)

abbrev pub HasOwner : List UserRow → RoleRequest → Type 0
HasOwner users r = find_user r.user_id users ≢ none

pub record IsSound (w : World) : Type 0 where
  pub user_ids : Unique (λ r. r.id) w.users
  pub emails : Unique (λ r. r.email) w.users
  pub request_ids : Unique (λ r. r.id) w.role_requests
  pub owners : All (HasOwner w.users) w.role_requests

-- An email that no other account has, and an id that is not there: nobody has the email.
free_email :
    (u : User) (t : List UserRow)
    → email_taken u t ≡ false
    → find_user u.id t ≡ none
    → find_email u.email t ≡ none
unfolding email_taken find
free_email u [] h k = refl
free_email u (s ∷ t) h k = ground (arith, free_email u t)

find_email-put_ne :
    (k : String) (u : User) (t : List UserRow)
    → u.email ≢ k
    → find_email k t ≡ none
    → find_email k (put (λ r. r.id) (to_user_row u) t) ≡ none
unfolding find put to_user_row
find_email-put_ne k u [] ne h = ground (arith, eq_iff u.email k)
find_email-put_ne k u (s ∷ t) ne h =
    ground (arith, find_email-put_ne k u t ne, eq_iff u.email k, eq_iff s.email k)

emails-put :
    (u : User) (t : List UserRow)
    → email_taken u t ≡ false
    → Unique (λ r. r.id) t
    → Unique (λ r. r.email) t
    → Unique (λ r. r.email) (put (λ r. r.id) (to_user_row u) t)
unfolding put email_taken to_user_row
emails-put u [] h ids es = (unfold find in refl, tt)
emails-put u (s ∷ t) h ids es = ground (
  arith,
  emails-put u t,
  free_email u t,
  find_email-put_ne s.email u t,
  eq_iff s.email u.email,
  eq_iff s.id u.id,
  eq_iff u.email s.email,
)

owner-put :
    (u : User) (t : List UserRow) (k : String)
    → find_user k t ≢ none
    → find_user k (put (λ r. r.id) (to_user_row u) t) ≢ none
owner-put u t k h = ground (arith, find-put (λ r. r.id) k (to_user_row u) t)

owners-put :
    (u : User) (t : List UserRow) (rs : List RoleRequest)
    → All (HasOwner t) rs
    → All (HasOwner (put (λ r. r.id) (to_user_row u) t)) rs
owners-put u t [] h = tt
owners-put u t (r ∷ rs) h = (owner-put u t r.user_id h.0, owners-put u t rs h.1)

owners-put_request :
    (users : List UserRow) (r : RoleRequest) (rs : List RoleRequest)
    → HasOwner users r
    → All (HasOwner users) rs
    → All (HasOwner users) (put (λ q. q.id) r rs)
unfolding put
owners-put_request users r [] o h = (o, tt)
owners-put_request users r (s ∷ rs) o h = ground (arith, owners-put_request users r rs o h.1)

owner_of_found :
    (users : List UserRow) (k : String) (rs : List RoleRequest) (r : RoleRequest)
    → All (HasOwner users) rs
    → find (λ q. q.id) k rs ≡ some r
    → HasOwner users r
unfolding find
owner_of_found users k [] r h e = cc
owner_of_found users k (s ∷ rs) r h e = ground (arith, owner_of_found users k rs r h.1)

pub save-IsSound : (d : Draw) (u : User) (es : List DomainEvent) → Keeps IsSound (save d u es)
unfolding save
save-IsSound d u es = record {
  at_state = λ w h. ground (
    arith,
    put-Unique (λ (r : UserRow). r.id) (to_user_row u) w.users h.user_ids,
    emails-put u w.users,
    owners-put u w.users w.role_requests h.owners,
  );
}

stored-IsSound :
    (d : Draw) (r : RoleRequest) (es : List DomainEvent) (w : World)
    → IsSound w
    → HasOwner w.users r
    → IsSound (store_role_request d r es w)
unfolding store_role_request
stored-IsSound d r es w h o = record {
  user_ids = h.user_ids;
  emails = h.emails;
  request_ids = put-Unique (λ (q : RoleRequest). q.id) r w.role_requests h.request_ids;
  owners = owners-put_request w.users r w.role_requests o h.owners;
}

pub save_role_request-IsSound :
    (d : Draw) (r : RoleRequest) (es : List DomainEvent) → Keeps IsSound (save_role_request d r es)
unfolding save_role_request
save_role_request-IsSound d r es = record {
  at_state = λ w h. elim (Option-cases (find (λ (q : RoleRequest). q.id) r.id w.role_requests)) [
    | inl e ↦ elim (Option-cases (find_user r.user_id w.users)) [
      | inl f ↦ rw (e, f, save_role_request) h
      | inr (owner, f) ↦ rw (e, f, save_role_request) (stored-IsSound d r es w h (ground arith))
    ]
    | inr (row, e) ↦
        rw (e, save_role_request)
          (stored-IsSound d (record r { user_id = row.user_id }) es w h
            (owner_of_found w.users r.id w.role_requests row h.owners e))
  ];
}

pub record_login_audit-IsSound :
    (d : Draw) (o : Option String) (ip : String) (b : Bool)
    → Keeps IsSound (record_login_audit d o ip b)
unfolding record_login_audit
record_login_audit-IsSound d o ip b = record {
  at_state = λ w h. record {
    user_ids = h.user_ids;
    emails = h.emails;
    request_ids = h.request_ids;
    owners = h.owners;
  };
}

module _ {P : World → Type 0} where
  pub get_by_id-Keeps : (k : String) → Keeps P (get_by_id k)
  unfolding get_by_id
  get_by_id-Keeps k = record { at_state = λ w h. h }

  pub get_by_email-Keeps : (k : String) → Keeps P (get_by_email k)
  unfolding get_by_email
  get_by_email-Keeps k = record { at_state = λ w h. h }

  pub get_role_request_by_id-Keeps : (k : String) → Keeps P (get_role_request_by_id k)
  unfolding get_role_request_by_id
  get_role_request_by_id-Keeps k = record { at_state = λ w h. h }
