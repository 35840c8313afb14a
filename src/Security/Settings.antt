-- ===== src/Security/Settings.antt =====
-- app/config.py: the settings that the code reads, and the check of them at boot.
pub mod Boot
use Prim.Native.String.{count}
use auth_profile_service.Common.{
  has_part, ℕ, String, Bool, true, false, not, ◌&&◌, ◌||◌, ◌==◌, nat_eq, ltb, if◌then◌else◌, lower,
  is_empty,
}
use auth_profile_service.Auth.Errors.{Error, Result, ok, err}

pub record Settings : Type 0 where
  pub app_name : String
  pub env : String
  pub jwt_secret : String
  pub jwt_algorithm : String
  pub jwt_issuer : String
  pub jwt_audience : String
  pub access_token_ttl_minutes : ℕ
  pub refresh_token_ttl_days : ℕ
  pub run_migrations : Bool
  pub kafka_enabled : Bool
  pub kafka_topic_user_events : String
  pub kafka_topic_wallet_events : String
  pub kafka_topic_game_events : String
  pub kafka_topic_presence_events : String
  pub kafka_topic_trade_events : String
  pub kafka_topic_community_events : String
  pub kafka_consumer_group : String
  pub outbox_batch_size : ℕ
  pub super_admin_email : String
  pub super_admin_password : String
  pub super_admin_display_name : String

-- The defaults of the fields.
abbrev pub defaults : Settings
defaults = record {
  app_name = "auth-profile-service";
  env = "local";
  jwt_secret = "CHANGE_ME_IN_PRODUCTION";
  jwt_algorithm = "HS256";
  jwt_issuer = "arcadia-auth";
  jwt_audience = "arcadia";
  access_token_ttl_minutes = 15;
  refresh_token_ttl_days = 7;
  run_migrations = true;
  kafka_enabled = true;
  kafka_topic_user_events = "user-events";
  kafka_topic_wallet_events = "wallet-events";
  kafka_topic_game_events = "game-events";
  kafka_topic_presence_events = "presence-events";
  kafka_topic_trade_events = "trade-events";
  kafka_topic_community_events = "community-events";
  kafka_consumer_group = "auth-profile-service";
  outbox_batch_size = 50;
  super_admin_email = "admin@arcadia.com";
  super_admin_password = "admin-password";
  super_admin_display_name = "Super Admin";
}

unfoldable pub is_production : Settings → Bool
unfolding lower
is_production s =
    let env = lower s.env in
    not (env == "local" || (env == "dev" || (env == "development" || env == "test")))

-- Refuse to start on a development placeholder outside development.
unfoldable pub reject_placeholder_secrets : Settings → Result Settings
unfolding is_production has_part
reject_placeholder_secrets s =
    if not (is_production s)
    then ok s
    else if ltb (count s.jwt_secret) 32
    then err Error.value_error
    else if has_part "change_me" (lower s.jwt_secret) || has_part "change-me" (lower s.jwt_secret)
    then err Error.value_error
    else if has_part "changeme" (lower s.super_admin_password)
    then err Error.value_error
    else if is_empty s.jwt_issuer || is_empty s.jwt_audience
    then err Error.value_error
    else ok s
