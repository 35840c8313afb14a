-- ===== src/Ports/Stores.antt =====
-- What the ports of Redis promise, and that the two stores keep it side by side.
use auth_profile_service.Common.{
  ℕ, ◌+◌, ◌*◌, String, ◌≡◌, ◌≢◌, sym, ap, ◌∙◌, arith, ◌==◌, eq_iff, eq_refl, Bool-cases, inl, inr,
  ltb,
}
use Prim.Native.Char.{code}
use text.Mathlib.TextLemmas.{append_cancel_left, cons-append, head-eq_of_cons-eq}
use auth_profile_service.Auth.Errors.{ok}
use auth_profile_service.Database.World.{World, Expiring}
use auth_profile_service.Database.Tables.{find-put}
use auth_profile_service.Database.Redis.{
  set_key, has_key, revoked_key, presence_key, revoke, is_revoked, set_online, is_online,
}
use auth_profile_service.Ports.{
  TokenBlacklistPort, PresenceStorePort, token_blacklist, presence_store,
}

-- A key that was set is there until its time of expiry.
has_key-set :
    (t now : ℕ) (key : String) (ttl : ℕ) (w : World)
    → has_key t key (set_key now key ttl w).1 ≡ ltb t (now + ttl * 1000)
unfolding has_key set_key
has_key-set t now key ttl w = rw (
  find-put (λ (e : Expiring). e.key) key (record { key = key; expires_at = now + ttl * 1000 })
      w.redis,
  eq_refl key,
)

-- And the others are as they were.
has_key-set_other :
    (t now : ℕ) (key other : String) (ttl : ℕ) (w : World)
    → key ≢ other
    → has_key t other (set_key now key ttl w).1 ≡ has_key t other w
unfolding has_key set_key
has_key-set_other t now key other ttl w ne = elim (Bool-cases (key == other)) [
  | inl e ↦ elim (ne ((eq_iff key other).0 e)) [ ]
  | inr e ↦ rw (
    find-put (λ (x : Expiring). x.key) other (record { key = key; expires_at = now + ttl * 1000 })
        w.redis,
    e,
  )
]

keys_apart : (jti user_id : String) → revoked_key jti ≢ presence_key user_id
unfolding revoked_key presence_key
keys_apart jti user_id e =
    let heads = head-eq_of_cons-eq (
      sym (cons-append "a" "uth:revoked_jti:" jti)
      ∙ e
      ∙ cons-append "p" "resence:online:" user_id) in
    let codes : 97 ≡ 112 = ap code heads in ground (arith, codes)

revoked_key_injective : (a b : String) → revoked_key a ≡ revoked_key b → a ≡ b
unfolding revoked_key
revoked_key_injective a b e = append_cancel_left "auth:revoked_jti:" a b e

presence_key_injective : (a b : String) → presence_key a ≡ presence_key b → a ≡ b
unfolding presence_key
presence_key_injective a b e = append_cancel_left "presence:online:" a b e

-- A blacklist: an id that was revoked for a time is revoked until that time is over, from whatever was
-- there before, and every other id is as it was.
pub record TokenBlacklistLaws (b : TokenBlacklistPort) : Type 0 where
  pub revoked :
      (now t : ℕ) (jti : String) (ttl : ℕ) (w : World)
      → (b.is_revoked t jti (b.revoke now jti ttl w).1).0 ≡ ok (ltb t (now + ttl * 1000))
  pub others :
      (now t : ℕ) (jti other : String) (ttl : ℕ) (w : World)
      → jti ≢ other
      → (b.is_revoked t other (b.revoke now jti ttl w).1).0 ≡ (b.is_revoked t other w).0

-- A presence store: an account that was set online is online until that time is over, and every other
-- account is as it was.
pub record PresenceStoreLaws (p : PresenceStorePort) : Type 0 where
  pub online :
      (now t : ℕ) (user_id : String) (ttl : ℕ) (w : World)
      → (p.is_online t user_id (p.set_online now user_id ttl w).1).0 ≡ ok (ltb t (now + ttl * 1000))
  pub others :
      (now t : ℕ) (user_id other : String) (ttl : ℕ) (w : World)
      → user_id ≢ other
      → (p.is_online t other (p.set_online now user_id ttl w).1).0 ≡ (p.is_online t other w).0

-- Neither store sees what is written to the other.
pub record Apart (b : TokenBlacklistPort) (p : PresenceStorePort) : Type 0 where
  pub online_kept :
      (now t : ℕ) (jti user_id : String) (ttl : ℕ) (w : World)
      → (p.is_online t user_id (b.revoke now jti ttl w).1).0 ≡ (p.is_online t user_id w).0
  pub revoked_kept :
      (now t : ℕ) (user_id jti : String) (ttl : ℕ) (w : World)
      → (b.is_revoked t jti (p.set_online now user_id ttl w).1).0 ≡ (b.is_revoked t jti w).0

-- The two stores keep their contracts side by side on one server.
pub redis_stores :
    TokenBlacklistLaws token_blacklist
    × PresenceStoreLaws presence_store
    × Apart token_blacklist presence_store
unfolding token_blacklist presence_store revoke is_revoked set_online is_online
redis_stores = (
  record {
    revoked = λ now t jti ttl w. ap (λ x. ok x) (has_key-set t now (revoked_key jti) ttl w);
    others = λ now t jti other ttl w ne.
        ap (λ x. ok x)
          (has_key-set_other t now (revoked_key jti) (revoked_key other) ttl w
            (λ e. ne (revoked_key_injective jti other e)));
  },
  record {
    online = λ now t user_id ttl w. ap (λ x. ok x) (has_key-set t now (presence_key user_id) ttl w);
    others = λ now t user_id other ttl w ne.
        ap (λ x. ok x)
          (has_key-set_other t now (presence_key user_id) (presence_key other) ttl w
            (λ e. ne (presence_key_injective user_id other e)));
  },
  record {
    online_kept = λ now t jti user_id ttl w.
        ap (λ x. ok x)
          (has_key-set_other t now (revoked_key jti) (presence_key user_id) ttl w
            (keys_apart jti user_id));
    revoked_kept = λ now t user_id jti ttl w.
        ap (λ x. ok x)
          (has_key-set_other t now (presence_key user_id) (revoked_key jti) ttl w
            (λ e. keys_apart jti user_id (sym e)));
  },
)
