-- ===== src/Security.antt =====
-- app/infrastructure/security, app/config.py and app/core/security_deps.py.
pub mod Settings
pub mod Passwords
pub mod Jwt
