-- ===== src/Auth/RoleRequest.antt =====
-- app/domain/auth/role_request.py: a request for a role, decided once.
use auth_profile_service.Common.{ℕ, String, Option, none, some, if◌then◌else◌}
use auth_profile_service.Auth.Enums.{Role, RoleRequestStatus, status_eq}
use auth_profile_service.Auth.Errors.{Error, Result, ok, err}

pub record RoleRequest : Type 0 where
  pub id : String
  pub user_id : String
  pub requested_role : Role
  pub status : RoleRequestStatus
  pub decision_note : Option String
  pub decided_by : Option String
  pub created_at : ℕ

-- `id` is the uuid that the call draws, `now` the clock it reads.
unfoldable pub create : (id : String) (now : ℕ) → String → Role → RoleRequest
create id now user_id requested_role = record {
  id = id;
  user_id = user_id;
  requested_role = requested_role;
  status = RoleRequestStatus.pending;
  decision_note = none;
  decided_by = none;
  created_at = now;
}

unfoldable pub approve : String → Option String → RoleRequest → Result RoleRequest
approve decided_by note r =
    if status_eq r.status RoleRequestStatus.pending
    then ok (record r {
      status = RoleRequestStatus.approved;
      decided_by = some decided_by;
      decision_note = note;
    })
    else err (Error.role_request_already_decided r.id)

unfoldable pub reject : String → Option String → RoleRequest → Result RoleRequest
reject decided_by note r =
    if status_eq r.status RoleRequestStatus.pending
    then ok (record r {
      status = RoleRequestStatus.rejected;
      decided_by = some decided_by;
      decision_note = note;
    })
    else err (Error.role_request_already_decided r.id)
