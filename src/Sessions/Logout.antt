-- ===== src/Sessions/Logout.antt =====
-- logout.py against refresh_token.py: from when to when a session that was signed out is refused.
use Prim.Native.Nat.{max}
use auth_profile_service.Common.{
  ℕ, zero, suc, ◌≤◌, ◌<◌, ◌*◌, ◌+◌, ◌-◌, ◌/◌, String, ◌≡◌, refl, ap, ◌∙◌, false, some, [], arith,
  is_empty, ltb, lt→ltb, le→ltb, eq_refl,
}
use auth_profile_service.Json.{Json, Fields, get, is_truthy}
use auth_profile_service.Auth.Enums.{UserState, role_value}
use auth_profile_service.Auth.Errors.{Error, ok, err}
use auth_profile_service.Database.Tables.{find-put}
use auth_profile_service.Database.World.{UserRow, Expiring, World, Draw, ◌>>=◌}
use auth_profile_service.Database.Redis.{has_key, revoked_key, revoke, set_key}
use auth_profile_service.Database.Users.Integrity.{find_user}
use auth_profile_service.Security.Settings.{Settings}
use auth_profile_service.Security.Jwt.{
  Jwt, JwtLaws, seconds, text_claim, create_access_token, create_refresh_token, signed_claims,
  refresh_claims,
}
use auth_profile_service.Sessions.{refresh, logout, truthy_text, truthy_number}
use auth_profile_service.Sessions.Tokens.{refresh_ttl, refresh_token_lem}
use auth_profile_service.Sessions.Refresh.{answer, is_blacklisted, refresh_lem}

truthy_text_nonempty :
    (t : String) → is_empty t ≡ false → truthy_text (some (Json.str t)) ≡ ok (some t)
unfolding truthy_text is_truthy
truthy_text_nonempty t h = ground arith

truthy_number_pos : (n : ℕ) → 0 < n → truthy_number (some (seconds n)) ≡ ok (some n)
unfolding truthy_number is_truthy
truthy_number_pos zero h = elim h [ ]
truthy_number_pos (suc n) h = refl

-- The state after a key was set.
unfoldable pub with_key : (now : ℕ) (key : String) (ttl : ℕ) → World → World
unfolding set_key
with_key now key ttl w = (set_key now key ttl w).1

has_key-with_key :
    (t now : ℕ) (key : String) (ttl : ℕ) (w : World)
    → has_key t key (with_key now key ttl w) ≡ ltb t (now + ttl * 1000)
unfolding has_key with_key
has_key-with_key t now key ttl w = rw (
  find-put (λ (e : Expiring). e.key) key (record { key = key; expires_at = now + ttl * 1000 })
      w.redis,
  eq_refl key,
)

module _ {Token : Type 0} (jwt : Jwt Token) (s : Settings) (laws : JwtLaws jwt) (minted : Draw)
    (user_id : String) (named : is_empty (minted.uuid 0) ≡ false) where
  -- The session's refresh token, and when it expires, in milliseconds.
  abbrev token : Token
  token = create_refresh_token jwt s minted user_id

  abbrev expiry : ℕ
  expiry = (minted.now / 1000 + refresh_ttl s) * 1000

  abbrev claims : Fields
  claims = signed_claims s minted (refresh_claims user_id) (refresh_ttl s)

  -- How long the blacklist keeps the token after a sign-out at a time, in seconds.
  abbrev kept : ℕ → ℕ
  kept now = max ((expiry - now) / 1000) 1

  jti_is : truthy_text (get "jti" claims) ≡ ok (some (minted.uuid 0))
  unfolding signed_claims refresh_claims get
  jti_is = truthy_text_nonempty (minted.uuid 0) named

  exp_is :
      0 < expiry → truthy_number (get "exp" claims) ≡ ok (some (minted.now / 1000 + refresh_ttl s))
  unfolding signed_claims refresh_claims get
  exp_is pos = truthy_number_pos _ (omega arith)

  sub_is : text_claim "sub" claims ≡ ok user_id
  unfolding signed_claims refresh_claims get text_claim
  sub_is = refl

  logout_lem :
      (d : Draw) (w : World)
      → minted.now ≤ d.now
      → d.now < expiry
      → logout jwt s d token w
        ≡ (ok tt, with_key d.now (revoked_key (minted.uuid 0)) (kept d.now) w)
  unfolding logout ◌>>=◌ revoke with_key
  logout_lem d w from until = rw (
    (refresh_token_lem jwt s laws minted user_id d.now from until).0,
    jti_is,
    exp_is (omega arith),
  )

  refresh_after :
      (d d' : Draw) (w : World)
      → minted.now ≤ d.now
      → d.now < expiry
      → d.now ≤ d'.now
      → d'.now < expiry
      → (refresh jwt s d' token (logout jwt s d token w).1).0
        ≡ answer jwt s d' user_id
            (ltb d'.now (d.now + kept d.now * 1000))
            (find_user user_id w.users)
  unfolding is_blacklisted with_key
  refresh_after d d' w from until later valid =
      let w' = with_key d.now (revoked_key (minted.uuid 0)) (kept d.now) w in
      let decoded = (refresh_token_lem jwt s laws minted user_id d'.now (omega arith) valid).0 in
      rw (logout_lem d w from until) (
        ap (λ p. p.0)
          (refresh_lem jwt s d' token w' claims user_id (some (minted.uuid 0)) decoded jti_is
            sub_is)
        ∙ ap (λ b. answer jwt s d' user_id b (find_user user_id w.users))
            (has_key-with_key d'.now d.now (revoked_key (minted.uuid 0)) (kept d.now) w))

  -- With PyJWT's laws and a jti that is not empty: after a sign-out with a valid refresh token, a
  -- refresh with that token is refused as revoked
  -- at any later time that is at least a second before the token's expiry.
  pub logout_revokes :
      (d d' : Draw) (w : World)
      → minted.now ≤ d.now
      → d.now < expiry
      → d.now ≤ d'.now
      → d'.now + 1000 ≤ expiry
      → (refresh jwt s d' token (logout jwt s d token w).1).0
        ≡ err (Error.token_error "Refresh token has been revoked.")
  unfolding answer
  logout_revokes d d' w from until later valid = rw (
    refresh_after d d' w from until later (omega arith),
    lt→ltb d'.now (d.now + kept d.now * 1000) (omega arith),
  )

  -- With PyJWT's laws and a jti that is not empty: after a sign-out with a valid refresh token, a
  -- refresh with that token succeeds again between
  -- the moment at which the blacklist lets go of it and the token's expiry, if the account is ACTIVE.
  pub logout_gap :
      (d d' : Draw) (w : World) (row : UserRow)
      → minted.now ≤ d.now
      → d.now < expiry
      → d.now + kept d.now * 1000 ≤ d'.now
      → d'.now < expiry
      → find_user user_id w.users ≡ some row
      → row.state ≡ UserState.active
      → (refresh jwt s d' token (logout jwt s d token w).1).0
        ≡ ok (create_access_token jwt s d' row.id (role_value row.role) [])
  unfolding answer
  logout_gap d d' w row from until gone valid found active = rw (
    refresh_after d d' w from until (omega arith) valid,
    le→ltb d'.now (d.now + kept d.now * 1000) gone,
    found,
    active,
  )
