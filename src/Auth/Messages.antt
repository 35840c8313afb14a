-- ===== src/Auth/Messages.antt =====
-- The texts of app/domain/auth/exceptions.py and app/domain/profile/exceptions.py, as `str` of an
-- error gives them.
use Prim.Native.String.{◌++◌, char_at}
use auth_profile_service.Common.{
  ℕ, zero, suc, ◌/◌, ◌%◌, String, ◌==◌, if◌then◌else◌, ltb, ◌<◌, ◌≡◌, arith,
}
use auth_profile_service.Auth.Errors.{Error}

abbrev digit : ℕ → String
digit d = String.◌∷◌ (char_at "0123456789" d) String.[]

-- A number in decimal; a number has no more digits than one more than itself.
unfoldable pub decimal_within : (fuel : ℕ) → ℕ → String
decimal_within zero n = ""
decimal_within (suc fuel) n =
    let rest = decimal_within fuel (n / 10) in if ltb n 10 then digit n else rest ++ digit (n % 10)

unfoldable pub decimal : ℕ → String
unfolding decimal_within
decimal n = decimal_within (suc n) n

same_digits :
    (fuel other n : ℕ) → n < fuel → n < other → decimal_within fuel n ≡ decimal_within other n
unfolding decimal_within
same_digits zero other n h k = ground arith
same_digits (suc fuel) zero n h k = ground arith
same_digits (suc fuel) (suc other) n h k = ground (arith, same_digits fuel other (n / 10))

-- Any fuel above the number is enough: more of it gives the same digits.
decimal_within-decimal : (fuel n : ℕ) → n < fuel → decimal_within fuel n ≡ decimal n
unfolding decimal
decimal_within-decimal fuel n enough = same_digits fuel (suc n) n enough (omega arith)

-- The message of `AccountNotUsableError`.
unfoldable pub unusable_message : String → String
unusable_message state =
    if state == "PENDING"
    then "This registration is waiting for a Support decision."
    else if state == "REJECTED"
    then "This registration was rejected."
    else if state == "BANNED"
    then "This account is banned. Contact support."
    else "This account is " ++ (state ++ " and cannot sign in.")

-- `str(exc)`; what is no error of the service has no text that is shown.
unfoldable pub message : Error → String
unfolding decimal unusable_message
message (Error.invalid_state_transition state action) =
    "Cannot perform '" ++ (action ++ ("' while account is in state '" ++ (state ++ "'.")))
message (Error.invalid_role_transition text) = text
message (Error.duplicate_email email) = "Email '" ++ (email ++ "' is already registered.")
message Error.invalid_credentials = "Invalid email or password."
message (Error.account_not_usable state) = unusable_message state
message (Error.user_not_found id) = "User '" ++ (id ++ "' was not found.")
message (Error.recipient_not_found query) = "No active account matches '" ++ (query ++ "'.")
message (Error.recipient_not_unique query n) =
    decimal n ++ (" accounts are called '" ++ (query ++ "'. Use their email address instead."))
message (Error.role_request_not_found id) = "Role request '" ++ (id ++ "' was not found.")
message (Error.role_request_already_decided id) =
    "Role request '" ++ (id ++ "' has already been decided.")
message (Error.token_error text) = text
message (Error.profile_not_found id) = "Profile for user '" ++ (id ++ "' was not found.")
message (Error.http_exception code text) = text
message _ = "Internal server error."
