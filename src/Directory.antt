-- ===== src/Directory.antt =====
-- app/application/use_cases/auth: the use cases that read the accounts, find_recipient.py,
-- suggest_recipients.py, list_users.py, list_active_user_ids.py and list_pending_role_requests.py.
pub mod Recipient
pub mod Suggestions
pub mod Listing
use Prim.Native.String.{count}
use auth_profile_service.Common.{
  ℕ, String, Bool, true, false, not, Option, none, some, List, [], ◌∷◌, if◌then◌else◌, ltb, length,
  lower, strip, is_empty, has_char,
}
use auth_profile_service.Auth.Enums.{Role, UserState, state_eq}
use auth_profile_service.Auth.Errors.{Error, ok, err}
use auth_profile_service.Auth.RolePolicy.{is_staff}
use auth_profile_service.Auth.RoleRequest.{RoleRequest}
use auth_profile_service.Auth.User.{User}
use auth_profile_service.Database.World.{Exec, pure, raise, or_raise, ◌>>=◌}
use auth_profile_service.Database.Users.{
  get_by_email, find_active_by_display_name, list_ids_by_state, list_pending_role_requests,
}
use auth_profile_service.Database.Search.{TextSearch, search_active, list_users}

-- `user is None or user.state is not UserState.ACTIVE`
unfoldable pub active_only : String → Option User → Exec User
active_only candidate none = raise (Error.recipient_not_found candidate)
active_only candidate (some user) =
    if state_eq user.state UserState.active
    then pure user
    else raise (Error.recipient_not_found candidate)

-- What is made of the accounts with the display name.
unfoldable pub only_one : String → List User → Exec User
only_one candidate [] = raise (Error.recipient_not_found candidate)
only_one candidate (user ∷ []) = pure user
only_one candidate (user ∷ other ∷ rest) =
    raise (Error.recipient_not_unique candidate (length (user ∷ other ∷ rest)))

unfoldable pub by_email : String → Exec User
unfolding active_only
by_email candidate = do user ← get_by_email (lower candidate); active_only candidate user

unfoldable pub by_name : String → Exec User
unfolding only_one
by_name candidate = do matches ← find_active_by_display_name candidate; only_one candidate matches

-- `FindRecipientUseCase.execute`
unfoldable pub find_recipient : String → Exec User
unfolding by_email by_name
find_recipient query =
    let candidate = strip query in
    if is_empty candidate
    then raise (Error.recipient_not_found query)
    else if has_char b'@' candidate
    then by_email candidate
    else by_name candidate

abbrev pub min_query_length : ℕ
min_query_length = 2

abbrev pub max_results : ℕ
max_results = 8

-- `SuggestRecipientsUseCase.execute`
unfoldable pub suggest_recipients : TextSearch → (query exclude_user_id : String) → Exec (List User)
suggest_recipients server query exclude_user_id =
    let needle = strip query in
    if ltb (count needle) min_query_length
    then pure []
    else search_active server needle max_results exclude_user_id

-- `ListUsersUseCase.execute`
unfoldable pub list_accounts : Role → Option UserState → Exec (List User)
list_accounts actor_role state =
    if not (is_staff actor_role)
    then raise (Error.invalid_role_transition "Only SUPPORT or ADMIN can list the user directory.")
    else list_users state

-- `ListActiveUserIdsUseCase.execute`
unfoldable pub list_user_ids : Role → UserState → Option Role → Exec (List String)
list_user_ids actor_role state role =
    if not (is_staff actor_role)
    then raise (Error.invalid_role_transition "Only SUPPORT or ADMIN can list the user directory.")
    else list_ids_by_state state role

-- `ListPendingRoleRequestsUseCase.execute`
unfoldable pub list_pending : Role → Exec (List RoleRequest)
list_pending actor_role =
    if not (is_staff actor_role)
    then raise
        (Error.invalid_role_transition "Only SUPPORT or ADMIN can list pending role requests.")
    else list_pending_role_requests
