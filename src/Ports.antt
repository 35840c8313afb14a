-- ===== src/Ports.antt =====
-- app/application/ports: what the use cases ask of the database and of Redis, as records of calls, and
-- the implementations of app/infrastructure that fill them.
pub mod Contract
pub mod Stores
use auth_profile_service.Common.{ℕ, String, Bool, Option, List}
use auth_profile_service.Auth.Enums.{Role, UserState}
use auth_profile_service.Auth.Events.{DomainEvent}
use auth_profile_service.Auth.RoleRequest.{RoleRequest}
use auth_profile_service.Auth.User.{User}
use auth_profile_service.Profile.{Profile, OwnedGame, OwnedItem, TopPost}
use auth_profile_service.Database.World.{World, Draw, Exec}
use auth_profile_service.Database.Search.{TextSearch}
use auth_profile_service.Database.Search
use auth_profile_service.Database.Users
use auth_profile_service.Database.Profiles
use auth_profile_service.Database.TopPosts
use auth_profile_service.Database.Redis

pub record UserRepositoryPort : Type 0 where
  pub get_by_id : String → Exec (Option User)
  pub get_by_email : String → Exec (Option User)
  pub list_users : Option UserState → Exec (List User)
  pub find_active_by_display_name : String → Exec (List User)
  pub search_active : (query : String) (limit : ℕ) (exclude_user_id : String) → Exec (List User)
  pub list_ids_by_state : UserState → Option Role → Exec (List String)
  pub save : Draw → User → List DomainEvent → Exec (Unit {0})
  pub record_login_audit : Draw → Option String → (ip : String) → (success : Bool) → Exec (Unit {0})

pub record RoleRequestRepositoryPort : Type 0 where
  pub get_role_request_by_id : String → Exec (Option RoleRequest)
  pub list_pending_role_requests : Exec (List RoleRequest)
  pub save_role_request : Draw → RoleRequest → List DomainEvent → Exec (Unit {0})

pub record TokenBlacklistPort : Type 0 where
  pub revoke : (now : ℕ) → (jti : String) → (ttl_seconds : ℕ) → Exec (Unit {0})
  pub is_revoked : (now : ℕ) → (jti : String) → Exec Bool

pub record PresenceStorePort : Type 0 where
  pub set_online : (now : ℕ) → (user_id : String) → (ttl_seconds : ℕ) → Exec (Unit {0})
  pub is_online : (now : ℕ) → (user_id : String) → Exec Bool

-- Exceptions apart, `create_if_missing` returns a profile: the one that was there or the new one.
pub record ProfileRepositoryPort : Type 0 where
  pub get_by_user_id : String → Exec (Option Profile)
  pub save : (now : ℕ) → Profile → Exec (Unit {0})
  pub create_if_missing : (now : ℕ) → (user_id display_name : String) → Exec (Option Profile)
  pub add_owned_game : OwnedGame → Exec (Unit {0})
  pub owns_game : (user_id game_id : String) → Exec Bool
  pub remove_owned_game : (user_id game_id : String) → Exec (Unit {0})
  pub add_owned_item : OwnedItem → Exec (Unit {0})
  pub upsert_top_post : TopPost → Exec (Unit {0})
  pub set_hidden : (user_id game_id : String) → (hidden : Bool) → Exec (Unit {0})

-- `SqlAlchemyUserRepository`, which fills two ports.
unfoldable pub user_repository : TextSearch → UserRepositoryPort
user_repository server = record {
  get_by_id = Users.get_by_id;
  get_by_email = Users.get_by_email;
  list_users = Search.list_users;
  find_active_by_display_name = Users.find_active_by_display_name;
  search_active = Search.search_active server;
  list_ids_by_state = Users.list_ids_by_state;
  save = Users.save;
  record_login_audit = Users.record_login_audit;
}

unfoldable pub role_request_repository : RoleRequestRepositoryPort
role_request_repository = record {
  get_role_request_by_id = Users.get_role_request_by_id;
  list_pending_role_requests = Users.list_pending_role_requests;
  save_role_request = Users.save_role_request;
}

-- `RedisTokenBlacklist` and `RedisPresenceStore`
unfoldable pub token_blacklist : TokenBlacklistPort
token_blacklist = record { revoke = Redis.revoke; is_revoked = Redis.is_revoked }

unfoldable pub presence_store : PresenceStorePort
presence_store = record { set_online = Redis.set_online; is_online = Redis.is_online }

-- `SqlAlchemyProfileRepository`
unfoldable pub profile_repository : ProfileRepositoryPort
profile_repository = record {
  get_by_user_id = Profiles.get_by_user_id;
  save = Profiles.save;
  create_if_missing = Profiles.create_if_missing;
  add_owned_game = Profiles.add_owned_game;
  owns_game = Profiles.owns_game;
  remove_owned_game = Profiles.remove_owned_game;
  add_owned_item = Profiles.add_owned_item;
  upsert_top_post = TopPosts.upsert_top_post;
  set_hidden = Profiles.set_hidden;
}
