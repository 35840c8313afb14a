-- ===== src/Rest/Admin.antt =====
-- app/presentation/rest/role_admin_controller.py: the requests for roles, the gift box's look-ups,
-- and the routes for staff.
use auth_profile_service.Common.{
  ℕ, String, true, false, Option, none, some, List, [], ◌∷◌, map, if◌then◌else◌,
}
use auth_profile_service.Auth.Enums.{Role, UserState, role_value, state_value, status_value}
use auth_profile_service.Auth.RoleRequest.{RoleRequest}
use auth_profile_service.Auth.User.{User}
use auth_profile_service.Database.Search.{TextSearch}
use auth_profile_service.Database.World.{Draw, Exec, pure, raise, lift, ◌>>=◌, ◌>>◌}
use auth_profile_service.Dto.{
  Content, RecipientSuggestion, AdminUserResponse, PendingRoleRequestResponse, DecideRoleRequest,
  is_within,
}
use auth_profile_service.Rest.{Framework, CurrentUser, get_current_user, caller, role_from}
use auth_profile_service.Security.Settings.{Settings}
use auth_profile_service.Security.Jwt.{Jwt}
use auth_profile_service.Accounts.{
  decide_registration, ban_user, grant_role, request_role, decide_role_request,
}
use auth_profile_service.Directory.{
  find_recipient, suggest_recipients, list_accounts, list_user_ids, list_pending,
}

-- `body.note or ""`
abbrev or_empty : Option String → String
or_empty none = ""
or_empty (some text) = text

abbrev pub suggestion : User → RecipientSuggestion
suggestion user = record {
  user_id = user.id;
  display_name = user.display_name;
  email = user.email;
  avatar_url = "";
}

abbrev pub account_entry : User → AdminUserResponse
account_entry user = record {
  user_id = user.id;
  email = user.email;
  display_name = user.display_name;
  role = role_value user.role;
  state = state_value user.state;
  created_at = user.created_at;
}

abbrev pub pending_entry : RoleRequest → PendingRoleRequestResponse
pending_entry r = record {
  request_id = r.id;
  user_id = r.user_id;
  requested_role = role_value r.requested_role;
  status = status_value r.status;
  decision_note = r.decision_note;
  decided_by = r.decided_by;
  created_at = r.created_at;
}

-- The bodies of the routes for staff, for the caller that their dependencies found.
module _ {Token : Type 0} (d : Draw) (user : CurrentUser) where
  unfoldable pub decide_role_request_body :
      (request_id : String) → DecideRoleRequest → Exec (Content Token)
  decide_role_request_body request_id body = do
    decide_role_request d user.role request_id body.approve user.user_id (or_empty body.note)
    pure Content.nothing

  unfoldable pub decide_registration_body :
      (user_id : String) → DecideRoleRequest → Exec (Content Token)
  decide_registration_body user_id body = do
    decide_registration d user.role user_id body.approve user.user_id (or_empty body.note)
    pure Content.nothing

  unfoldable pub grant_role_body : (user_id new_role : String) → Exec (Content Token)
  unfolding role_from
  grant_role_body user_id new_role = do
    role ← lift (role_from new_role)
    grant_role d user.role user_id role user.user_id
    pure Content.nothing

  unfoldable pub ban_user_body :
      (user_id : String) → (reason : Option String) → Exec (Content Token)
  ban_user_body user_id reason = do
    ban_user d user.role user_id true user.user_id (or_empty reason)
    pure Content.nothing

  unfoldable pub unban_user_body : (user_id : String) → Exec (Content Token)
  unban_user_body user_id = do
    ban_user d user.role user_id false user.user_id ""
    pure Content.nothing

  unfoldable pub list_users_body : Option UserState → Exec (Content Token)
  list_users_body user_state = do
    users ← list_accounts user.role user_state
    pure (Content.accounts (map account_entry users))

  unfoldable pub list_user_ids_body : UserState → Option Role → Exec (Content Token)
  list_user_ids_body user_state role = do
    ids ← list_user_ids user.role user_state role
    pure (Content.ids ids)

  unfoldable pub list_pending_role_requests_body : Exec (Content Token)
  list_pending_role_requests_body = do
    requests ← list_pending user.role
    pure (Content.pending (map pending_entry requests))

-- The routes whose decorator names the roles that may call them, with what they read.
pub data AdminRequest : Type 0 where
  decide_request : (request_id : String) → DecideRoleRequest → AdminRequest
  decide_user : (user_id : String) → DecideRoleRequest → AdminRequest
  grant : (user_id new_role : String) → AdminRequest
  ban : (user_id : String) → (reason : Option String) → AdminRequest
  unban : (user_id : String) → AdminRequest
  directory : Option UserState → AdminRequest
  directory_ids : UserState → Option Role → AdminRequest
  pending_requests : AdminRequest

unfoldable pub allowed_roles : AdminRequest → List Role
allowed_roles (AdminRequest.grant user_id new_role) = Role.admin ∷ []
allowed_roles _ = Role.support ∷ Role.admin ∷ []

-- What a route does for the caller that its dependencies found.
unfoldable pub admin_body :
    {Token : Type 0} → Draw → CurrentUser → AdminRequest → Exec (Content Token)
unfolding decide_role_request_body decide_registration_body grant_role_body ban_user_body
    unban_user_body list_users_body list_user_ids_body list_pending_role_requests_body
admin_body d user (AdminRequest.decide_request id body) = decide_role_request_body d user id body
admin_body d user (AdminRequest.decide_user id body) = decide_registration_body d user id body
admin_body d user (AdminRequest.grant id new_role) = grant_role_body d user id new_role
admin_body d user (AdminRequest.ban id reason) = ban_user_body d user id reason
admin_body d user (AdminRequest.unban id) = unban_user_body d user id
admin_body d user (AdminRequest.directory state) = list_users_body d user state
admin_body d user (AdminRequest.directory_ids state role) = list_user_ids_body d user state role
admin_body d user AdminRequest.pending_requests = list_pending_role_requests_body d user

module _ {Token : Type 0} (jwt : Jwt Token) (s : Settings) (fw : Framework) where
  unfoldable pub admin_route : Draw → Option Token → AdminRequest → Exec (Content Token)
  unfolding admin_body allowed_roles
  admin_route d bearer request = do
    user ← lift (caller jwt s fw (allowed_roles request) d.now bearer)
    admin_body d user request

  -- `request_role`
  unfoldable pub request_role_route :
      Draw → Option Token → (requested_role : String) → Exec (Content Token)
  unfolding role_from
  request_role_route d bearer requested_role = do
    user ← lift (get_current_user jwt s fw d.now bearer)
    role ← lift (role_from requested_role)
    role_request ← request_role d user.user_id role
    pure (
        Content.role_request
          (record { request_id = role_request.id; status = status_value role_request.status }))

  -- `Query(min_length=1, max_length=255)`
  abbrev checked_query : String → Exec (Unit {0})
  checked_query q = if is_within 1 255 q then pure tt else raise fw.invalid_request

  unfoldable pub lookup_route : ℕ → Option Token → (q : String) → Exec (Content Token)
  unfolding is_within
  lookup_route now bearer q = do
    user ← lift (get_current_user jwt s fw now bearer)
    checked_query q
    found ← find_recipient q
    pure (
        Content.recipient
          (record { user_id = found.id; display_name = found.display_name; avatar_url = "" }))

  unfoldable pub suggest_route : TextSearch → ℕ → Option Token → (q : String) → Exec (Content Token)
  unfolding is_within
  suggest_route server now bearer q = do
    user ← lift (get_current_user jwt s fw now bearer)
    checked_query q
    users ← suggest_recipients server q user.user_id
    pure (Content.suggestions (map suggestion users))
