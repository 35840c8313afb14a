-- ===== src/Security/Jwt.antt =====
-- app/infrastructure/security/jwt_provider.py: the claims of the two kinds of token, and how a token
-- is read. PyJWT, which signs and verifies, is a parameter.
use Prim.Native.String.{◌++◌}
use auth_profile_service.Common.{
  ℕ, ◌*◌, ◌+◌, ◌/◌, ◌≤◌, ◌<◌, String, ◌≡◌, Bool, false, Option, none, some, List, [], ◌∷◌, ◌==◌,
  if◌then◌else◌,
}
use auth_profile_service.Json.{Json, Items, Fields, nil, cons, end, field, get}
use auth_profile_service.Json.Int.{ℤ}
use auth_profile_service.Auth.Errors.{Error, Result, ok, err}
use auth_profile_service.Database.World.{Draw}
use auth_profile_service.Security.Settings.{Settings}

-- `jwt.encode` and `jwt.decode`. The clock is in milliseconds; `none` is any PyJWTError.
pub record Jwt (Token : Type 0) : Type 0 where
  pub encode : (claims : Fields) (secret algorithm : String) → Token
  pub decode : Token → (secret algorithm issuer audience : String) (now : ℕ) → Option Fields

abbrev pub seconds : ℕ → Json
seconds n = Json.num (ℤ.pos n)

-- What PyJWT documents of a token that was encoded with the same secret and algorithm: with the
-- issuer and the audience that are asked for it is accepted from `iat` and `nbf` on until before
-- `exp`, all in whole seconds, and from `exp` on it is refused.
pub record JwtLaws {Token : Type 0} (jwt : Jwt Token) : Type 0 where
  pub accepts :
      (claims : Fields) (secret algorithm issuer audience : String) (iat exp now : ℕ)
      → get "iss" claims ≡ some (Json.str issuer)
      → get "aud" claims ≡ some (Json.str audience)
      → get "iat" claims ≡ some (seconds iat)
      → get "nbf" claims ≡ some (seconds iat)
      → get "exp" claims ≡ some (seconds exp)
      → iat * 1000 ≤ now
      → now < exp * 1000
      → jwt.decode (jwt.encode claims secret algorithm) secret algorithm issuer audience now
        ≡ some claims
  pub refuses_expired :
      (claims : Fields) (secret algorithm issuer audience : String) (exp now : ℕ)
      → get "exp" claims ≡ some (seconds exp)
      → exp * 1000 ≤ now
      → jwt.decode (jwt.encode claims secret algorithm) secret algorithm issuer audience now ≡ none

-- `claims.get(key) == text`
unfoldable pub is_text : String → Option Json → Bool
is_text t (some (Json.str s)) = s == t
is_text t _ = false

-- `claims[key]`, for a claim that is read as a text.
unfoldable pub text_claim : String → Fields → Result String
text_claim k claims = elim (get k claims) [
  | none ↦ err Error.key_error
  | some v ↦ elim v [ Json.str s ↦ ok s | other ↦ err Error.value_error ]
]

unfoldable pub texts : List String → Items
texts [] = nil
texts (s ∷ ss) = cons (Json.str s) (texts ss)

-- `{**claims, "iss": …}` of `_sign`: the claims come first, in the order they were given.
unfoldable pub append : Fields → Fields → Fields
append end g = g
append (field k v f) g = field k v (append f g)

unfoldable pub signed_claims : Settings → Draw → Fields → (ttl : ℕ) → Fields
unfolding append
signed_claims s d claims ttl = append claims (
    field "iss" (Json.str s.jwt_issuer) (
      field "aud" (Json.str s.jwt_audience) (
        field "iat" (seconds (d.now / 1000)) (
          field "nbf" (seconds (d.now / 1000))
            (field "exp" (seconds (d.now / 1000 + ttl)) (field "jti" (Json.str (d.uuid 0)) end))))))

unfoldable pub access_claims : (user_id role : String) → List String → Fields
unfolding texts
access_claims user_id role scopes = field "sub" (Json.str user_id) (
    field "role" (Json.str role)
      (field "scopes" (Json.arr (texts scopes)) (field "typ" (Json.str "access") end)))

unfoldable pub refresh_claims : String → Fields
refresh_claims user_id = field "sub" (Json.str user_id) (field "typ" (Json.str "refresh") end)

module _ {Token : Type 0} (jwt : Jwt Token) (s : Settings) where
  unfoldable pub sign : Draw → Fields → (ttl : ℕ) → Token
  sign d claims ttl = jwt.encode (signed_claims s d claims ttl) s.jwt_secret s.jwt_algorithm

  unfoldable pub create_access_token : Draw → (user_id role : String) → List String → Token
  unfolding sign
  create_access_token d user_id role scopes =
      sign d (access_claims user_id role scopes) (s.access_token_ttl_minutes * 60)

  unfoldable pub create_refresh_token : Draw → String → Token
  unfolding sign
  create_refresh_token d user_id =
      sign d (refresh_claims user_id) (s.refresh_token_ttl_days * 86400)

  -- `_decode`: a token that does not say that it is of the expected kind is refused.
  unfoldable pub decode : (expected_type : String) (now : ℕ) → Token → Result Fields
  unfolding is_text
  decode expected_type now token =
      elim (jwt.decode token s.jwt_secret s.jwt_algorithm s.jwt_issuer s.jwt_audience now) [
        | none ↦ err (Error.token_error "Invalid token")
        | some claims ↦
            if is_text expected_type (get "typ" claims)
            then ok claims
            else err (Error.token_error ("Expected a '" ++ (expected_type ++ "' token.")))
      ]

  unfoldable pub decode_access_token : ℕ → Token → Result Fields
  unfolding decode
  decode_access_token now token = decode "access" now token

  unfoldable pub decode_refresh_token : ℕ → Token → Result Fields
  unfolding decode
  decode_refresh_token now token = decode "refresh" now token
