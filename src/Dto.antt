-- ===== src/Dto.antt =====
-- app/application/dto: what the routes read and answer. FastAPI writes an answer's fields as JSON.
use Prim.Native.String.{count}
use auth_profile_service.Common.{ℕ, String, Bool, ◌&&◌, Option, List, leb}
use auth_profile_service.Json.Int.{ℤ}

pub record RegisterRequest : Type 0 where
  pub email : String
  pub password : String
  pub display_name : String

-- The bounds that the fields declare, in characters.
unfoldable pub is_within : (lowest highest : ℕ) → String → Bool
is_within lowest highest text = leb lowest (count text) && leb (count text) highest

unfoldable pub fits_registration : RegisterRequest → Bool
unfolding is_within
fits_registration body = is_within 8 128 body.password && is_within 2 64 body.display_name

pub record RegisterResponse : Type 0 where
  pub user_id : String
  pub email : String
  pub state : String

pub record LoginRequest : Type 0 where
  pub email : String
  pub password : String

pub record TokenPairResponse (Token : Type 0) : Type 0 where
  pub access_token : Token
  pub refresh_token : Token
  pub token_type : String

pub record RoleRequestResponse : Type 0 where
  pub request_id : String
  pub status : String

pub record DecideRoleRequest : Type 0 where
  pub approve : Bool
  pub note : Option String

pub record RecipientResponse : Type 0 where
  pub user_id : String
  pub display_name : String
  pub avatar_url : String

pub record RecipientSuggestion : Type 0 where
  pub user_id : String
  pub display_name : String
  pub email : String
  pub avatar_url : String

pub record AdminUserResponse : Type 0 where
  pub user_id : String
  pub email : String
  pub display_name : String
  pub role : String
  pub state : String
  pub created_at : ℕ

pub record PendingRoleRequestResponse : Type 0 where
  pub request_id : String
  pub user_id : String
  pub requested_role : String
  pub status : String
  pub decision_note : Option String
  pub decided_by : Option String
  pub created_at : ℕ

pub record OwnedGameResponse : Type 0 where
  pub game_id : String
  pub hidden : Bool

pub record OwnedItemResponse : Type 0 where
  pub item_id : String
  pub game_id : String

pub record TopPostResponse : Type 0 where
  pub post_id : String
  pub feedback_score : ℤ
  pub rank : ℕ

pub record ProfileResponse : Type 0 where
  pub user_id : String
  pub display_name : String
  pub avatar_url : String
  pub online : Bool
  pub owned_games : List OwnedGameResponse
  pub owned_items : List OwnedItemResponse
  pub top_posts : List TopPostResponse

-- The body of an answer: nothing, an error's detail, or one of the above.
pub data Content (Token : Type 0) : Type 0 where
  nothing : Content Token
  detail : String → Content Token
  registered : RegisterResponse → Content Token
  token_pair : TokenPairResponse Token → Content Token
  role_request : RoleRequestResponse → Content Token
  recipient : RecipientResponse → Content Token
  suggestions : List RecipientSuggestion → Content Token
  accounts : List AdminUserResponse → Content Token
  ids : List String → Content Token
  pending : List PendingRoleRequestResponse → Content Token
  profile : ProfileResponse → Content Token
