-- ===== src/Database/World.antt =====
-- The rows of app/infrastructure/db/models, and the state that the service's calls read and write:
-- the database, the two key spaces in Redis, and the messages that Kafka has taken.
use auth_profile_service.Common.{ℕ, String, Bool, Option, none, some, List}
use auth_profile_service.Json.{Fields}
use auth_profile_service.Json.Int.{ℤ}
use auth_profile_service.Auth.Enums.{Role, UserState}
use auth_profile_service.Auth.RoleRequest.{RoleRequest}
use auth_profile_service.Auth.Errors.{Error, Result, ok, err}

pub record UserRow : Type 0 where
  pub id : String
  pub email : String
  pub password_hash : String
  pub display_name : String
  pub role : Role
  pub state : UserState
  pub created_at : ℕ

-- `payload` is the value that `json.dumps` writes and `json.loads` reads back.
pub record OutboxRow : Type 0 where
  pub id : String
  pub aggregate_type : String
  pub aggregate_id : String
  pub topic : String
  pub event_type : String
  pub payload : Fields
  pub dispatched : Bool
  pub created_at : ℕ
  pub dispatched_at : Option ℕ

pub record AuditRow : Type 0 where
  pub id : String
  pub user_id : Option String
  pub ip : String
  pub success : Bool
  pub at_time : ℕ

pub record ProfileRow : Type 0 where
  pub user_id : String
  pub display_name : String
  pub avatar_url : String
  pub online : Bool
  pub updated_at : ℕ

pub record OwnedGameRow : Type 0 where
  pub id : String
  pub user_id : String
  pub game_id : String
  pub hidden : Bool
  pub acquired_at : ℕ

pub record OwnedItemRow : Type 0 where
  pub id : String
  pub user_id : String
  pub item_id : String
  pub game_id : String
  pub acquired_at : ℕ

pub record TopPostRow : Type 0 where
  pub id : String
  pub user_id : String
  pub post_id : String
  pub feedback_score : ℤ
  pub rank : ℕ

-- The model of a role request has the fields of the domain's object.
pub record Db : Type 0 where
  pub users : List UserRow
  pub role_requests : List RoleRequest
  pub outbox : List OutboxRow
  pub login_audit : List AuditRow
  pub profiles : List ProfileRow
  pub owned_games : List OwnedGameRow
  pub owned_items : List OwnedItemRow
  pub top_posts : List TopPostRow

-- A key that Redis holds until `expires_at`, in milliseconds.
pub record Expiring : Type 0 where
  pub key : String
  pub expires_at : ℕ

pub record Published : Type 0 where
  pub topic : String
  pub key : String
  pub payload : Fields

pub record World : Type 0 where
  pub db : Db
  pub open db use *
  pub redis : List Expiring
  pub kafka : List Published

-- What a call draws from outside: random ids, and the clock in milliseconds.
pub record Draw : Type 0 where
  pub uuid : ℕ → String
  pub now : ℕ

-- A call that reads and writes the state and may raise. What was committed before a raise stays.
abbrev pub Exec : Type 0 → Type 0
Exec A = World → Result A × World

module _ {A : Type 0} where
  pub pure : A → Exec A
  pure a w = (ok a, w)

  pub raise : Error → Exec A
  raise e w = (err e, w)

  pub lift : Result A → Exec A
  lift r w = (r, w)

  -- `if value is None: raise error`
  pub or_raise : Option A → Error → Exec A
  or_raise none e w = (err e, w)
  or_raise (some a) e w = (ok a, w)

-- `if value is not None: raise error`
pub raise_if_found : {A : Type 0} → Option A → Error → Exec (Unit {0})
raise_if_found none e w = (ok tt, w)
raise_if_found (some a) e w = (err e, w)

abbrev continue : {A B : Type 0} → Result A → (A → Exec B) → Exec B
continue (ok a) f w = f a w
continue (err e) f w = (err e, w)

-- To open this opens the primitives above too.
infixl 5 ◌>>=◌ ◌>>◌
unfoldable pub ◌>>=◌ : {A B : Type 0} → Exec A → (A → Exec B) → Exec B
unfolding pure raise lift or_raise raise_if_found
◌>>=◌ m f w = let (r, w') = m w in continue r f w'

abbrev pub ◌>>◌ : {A B : Type 0} → Exec A → Exec B → Exec B
m >> k = m >>= λ _. k
