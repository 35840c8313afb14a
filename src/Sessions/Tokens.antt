-- ===== src/Sessions/Tokens.antt =====
-- jwt_provider.py: what the two kinds of token carry, and that neither stands for the other.
use auth_profile_service.Common.{
  ℕ, ◌≤◌, ◌<◌, ◌*◌, ◌+◌, ◌/◌, String, ◌≡◌, refl, none, some, List, arith,
}
use auth_profile_service.Json.{Json, get}
use auth_profile_service.Auth.Errors.{Error, ok, err}
use auth_profile_service.Database.World.{Draw}
use auth_profile_service.Security.Settings.{Settings}
use auth_profile_service.Security.Jwt.{
  Jwt, JwtLaws, signed_claims, access_claims, refresh_claims, create_access_token,
  create_refresh_token, decode_access_token, decode_refresh_token, decode,
}

-- The lifetimes, in seconds.
abbrev pub access_ttl : Settings → ℕ
access_ttl s = s.access_token_ttl_minutes * 60

abbrev pub refresh_ttl : Settings → ℕ
refresh_ttl s = s.refresh_token_ttl_days * 86400

module _ {Token : Type 0} (jwt : Jwt Token) (s : Settings) (laws : JwtLaws jwt) where
  access_decoded :
      (d : Draw) (user_id role : String) (scopes : List String) (now : ℕ)
      → d.now ≤ now
      → now < (d.now / 1000 + access_ttl s) * 1000
      → jwt.decode
          (create_access_token jwt s d user_id role scopes)
          s.jwt_secret
          s.jwt_algorithm
          s.jwt_issuer
          s.jwt_audience
          now
        ≡ some (signed_claims s d (access_claims user_id role scopes) (access_ttl s))
  unfolding create_access_token signed_claims access_claims get
  access_decoded d user_id role scopes now from until =
      laws.accepts _ s.jwt_secret s.jwt_algorithm s.jwt_issuer s.jwt_audience (d.now / 1000)
        (d.now / 1000 + access_ttl s) now refl refl refl refl refl (omega arith) until

  refresh_decoded :
      (d : Draw) (user_id : String) (now : ℕ)
      → d.now ≤ now
      → now < (d.now / 1000 + refresh_ttl s) * 1000
      → jwt.decode
          (create_refresh_token jwt s d user_id)
          s.jwt_secret
          s.jwt_algorithm
          s.jwt_issuer
          s.jwt_audience
          now
        ≡ some (signed_claims s d (refresh_claims user_id) (refresh_ttl s))
  unfolding create_refresh_token signed_claims refresh_claims get
  refresh_decoded d user_id now from until =
      laws.accepts _ s.jwt_secret s.jwt_algorithm s.jwt_issuer s.jwt_audience (d.now / 1000)
        (d.now / 1000 + refresh_ttl s) now refl refl refl refl refl (omega arith) until

  -- With PyJWT's laws: from its creation until its expiry an access token is read back with the
  -- subject and the role it was made for, and refused where a refresh token is asked for.
  pub access_token_lem :
      (d : Draw) (user_id role : String) (scopes : List String) (now : ℕ)
      → d.now ≤ now
      → now < (d.now / 1000 + access_ttl s) * 1000
      → let token = create_access_token jwt s d user_id role scopes in
        let claims = signed_claims s d (access_claims user_id role scopes) (access_ttl s) in
        (decode_access_token jwt s now token ≡ ok claims)
        × (get "sub" claims ≡ some (Json.str user_id))
        × (get "role" claims ≡ some (Json.str role))
        × (decode_refresh_token jwt s now token
            ≡ err (Error.token_error "Expected a 'refresh' token."))
  unfolding decode_access_token decode_refresh_token signed_claims access_claims get
  access_token_lem d user_id role scopes now from until = (
    rw (access_decoded d user_id role scopes now from until, decode),
    refl,
    refl,
    rw (access_decoded d user_id role scopes now from until, decode),
  )

  -- With PyJWT's laws: from its creation until its expiry a refresh token is read back with its
  -- subject and no role, and refused where an access token is asked for.
  pub refresh_token_lem :
      (d : Draw) (user_id : String) (now : ℕ)
      → d.now ≤ now
      → now < (d.now / 1000 + refresh_ttl s) * 1000
      → let token = create_refresh_token jwt s d user_id in
        let claims = signed_claims s d (refresh_claims user_id) (refresh_ttl s) in
        (decode_refresh_token jwt s now token ≡ ok claims)
        × (get "sub" claims ≡ some (Json.str user_id))
        × (get "role" claims ≡ none)
        × (decode_access_token jwt s now token
            ≡ err (Error.token_error "Expected a 'access' token."))
  unfolding decode_access_token decode_refresh_token signed_claims refresh_claims get
  refresh_token_lem d user_id now from until = (
    rw (refresh_decoded d user_id now from until, decode),
    refl,
    refl,
    rw (refresh_decoded d user_id now from until, decode),
  )

  -- With PyJWT's laws: from its expiry on a refresh token is refused.
  pub refresh_token_expired :
      (d : Draw) (user_id : String) (now : ℕ)
      → (d.now / 1000 + refresh_ttl s) * 1000 ≤ now
      → decode_refresh_token jwt s now (create_refresh_token jwt s d user_id)
        ≡ err (Error.token_error "Invalid token")
  unfolding decode_refresh_token create_refresh_token signed_claims refresh_claims get
  refresh_token_expired d user_id now late = rw (
    laws.refuses_expired _ s.jwt_secret s.jwt_algorithm s.jwt_issuer s.jwt_audience
        (d.now / 1000 + refresh_ttl s) now refl late,
    decode,
  )
