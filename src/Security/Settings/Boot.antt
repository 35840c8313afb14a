-- ===== src/Security/Settings/Boot.antt =====
-- app/config.py: what the check at boot lets through.
use Prim.Native.String.{count}
use auth_profile_service.Common.{has_part, ◌≤◌, ◌≡◌, true, false, arith, lower, is_empty}
use auth_profile_service.Auth.Errors.{ok}
use auth_profile_service.Security.Settings.{Settings, is_production, reject_placeholder_secrets}

-- Settings that the check lets through come out unchanged. In production their token secret has at
-- least 32 characters and contains neither "change_me" nor "change-me" in any case, the password of
-- the first administrator does not contain "changeme", and issuer and audience are not empty.
pub reject_placeholder_secrets_lem :
    (s t : Settings)
    → reject_placeholder_secrets s ≡ ok t
    → (t ≡ s)
      × (is_production s ≡ true
          → (32 ≤ count s.jwt_secret)
            × (has_part "change_me" (lower s.jwt_secret) ≡ false)
            × (has_part "change-me" (lower s.jwt_secret) ≡ false)
            × (has_part "changeme" (lower s.super_admin_password) ≡ false)
            × (is_empty s.jwt_issuer ≡ false)
            × (is_empty s.jwt_audience ≡ false))
unfolding reject_placeholder_secrets
reject_placeholder_secrets_lem s t h = ground arith
