-- ===== src/Database/Redis.antt =====
-- app/infrastructure/cache: keys that Redis holds for a time (SET EX), read by EXISTS.
use Prim.Native.String.{◌++◌}
use auth_profile_service.Common.{ℕ, ◌*◌, ◌+◌, String, Bool, false, Option, none, some, ltb}
use auth_profile_service.Auth.Errors.{ok}
use auth_profile_service.Database.Tables.{find, put}
use auth_profile_service.Database.World.{World, Expiring, Exec}

-- `client.set(key, "1", ex=ttl)`
unfoldable pub set_key : (now : ℕ) (key : String) (ttl_seconds : ℕ) → Exec (Unit {0})
set_key now key ttl_seconds w = (
  ok tt,
  record w {
    redis = put (λ e. e.key) (record { key = key; expires_at = now + ttl_seconds * 1000 }) w.redis;
  },
)

abbrev live : ℕ → Option Expiring → Bool
live now none = false
live now (some e) = ltb now e.expires_at

-- `client.exists(key) == 1`: a key is gone from its time of expiry on.
unfoldable pub has_key : (now : ℕ) (key : String) → World → Bool
has_key now key w = live now (find (λ e. e.key) key w.redis)

unfoldable pub revoked_key : String → String
revoked_key jti = "auth:revoked_jti:" ++ jti

unfoldable pub presence_key : String → String
presence_key user_id = "presence:online:" ++ user_id

unfoldable pub revoke : ℕ → String → ℕ → Exec (Unit {0})
unfolding set_key revoked_key
revoke now jti ttl_seconds = set_key now (revoked_key jti) ttl_seconds

unfoldable pub is_revoked : ℕ → String → Exec Bool
unfolding has_key revoked_key
is_revoked now jti w = (ok (has_key now (revoked_key jti) w), w)

unfoldable pub set_online : ℕ → String → ℕ → Exec (Unit {0})
unfolding set_key presence_key
set_online now user_id ttl_seconds = set_key now (presence_key user_id) ttl_seconds

unfoldable pub is_online : ℕ → String → Exec Bool
unfolding has_key presence_key
is_online now user_id w = (ok (has_key now (presence_key user_id) w), w)
