-- ===== src/Auth/Errors.antt =====
-- app/domain/auth/exceptions.py, app/domain/profile/exceptions.py, and what else a call may raise.
-- A constructor carries the arguments that the source's class is built from.
use auth_profile_service.Common.{ℕ, String, ◌≡◌, refl, ◌⊎◌, inl, inr}

pub data Error : Type 0 where
  -- the domain's errors
  invalid_state_transition : String → String → Error
  invalid_role_transition : String → Error
  duplicate_email : String → Error
  invalid_credentials : Error
  account_not_usable : String → Error
  user_not_found : String → Error
  recipient_not_found : String → Error
  recipient_not_unique : String → ℕ → Error
  role_request_not_found : String → Error
  role_request_already_decided : String → Error
  token_error : String → Error
  profile_not_found : String → Error
  -- raised by the presentation layer, with its status code
  http_exception : ℕ → String → Error
  -- not a platform event
  malformed_envelope : Error
  -- of the Kafka client
  kafka_error : Error
  -- Python's own, and those of the database driver
  value_error key_error attribute_error integrity_error multiple_results_found : Error

pub data Result {ℓ} (A : Type ℓ) : Type ℓ where
  ok : A → Result A
  err : Error → Result A

infixl 5 ◌>>=◌
abbrev pub ◌>>=◌ {ℓ κ} : {A : Type ℓ} {B : Type κ} → Result A → (A → Result B) → Result B
ok a >>= f = f a
err e >>= f = err e

pub Result-cases :
    {A : Type 0} (r : Result A) → ((a : A) × (r ≡ ok a)) ⊎ ((e : Error) × (r ≡ err e))
Result-cases (ok a) = inl (a, refl)
Result-cases (err e) = inr (e, refl)
