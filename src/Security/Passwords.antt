-- ===== src/Security/Passwords.antt =====
-- app/infrastructure/security/password_encoder.py. passlib's bcrypt is a parameter: `hash` is given
-- the salt that it draws.
use auth_profile_service.Common.{String, ◌≡◌, Bool, true}

pub record Hasher : Type 0 where
  pub hash : (salt plain_password : String) → String
  pub verify : (plain_password password_hash : String) → Bool

-- What passlib documents: a hash verifies against the password that it was made of.
pub record HasherLaws (h : Hasher) : Type 0 where
  pub verify-hash :
      (salt plain_password : String) → h.verify plain_password (h.hash salt plain_password) ≡ true
