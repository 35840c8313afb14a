-- ===== src/Tests.antt =====
-- The tests: concrete stand-ins for PyJWT and passlib that have the laws asked of them, an example
-- state, and, in the modules below, one use of each theorem that has conditions.
pub mod SignIn
pub mod Admin
pub mod Machines
pub mod Events
pub mod Bans
pub mod Directory
pub mod Web
pub mod Presence
pub mod Platform
pub mod Process
pub mod Ports
use Prim.Native.String.{◌++◌}
use auth_profile_service.Common.{
  ℕ, zero, suc, ◌*◌, ◌≤◌, ◌<◌, String, ◌≡◌, refl, Bool, true, false, not, ◌&&◌, Option, none, some,
  List, [], ◌∷◌, arith, ◌==◌, eq_refl, if◌then◌else◌, ltb, leb, le→ltb, leb→le, lt→ltb,
}
use auth_profile_service.Json.{Json, Fields, get}
use auth_profile_service.Json.Int.{ℤ}
use auth_profile_service.Auth.Enums.{Role, UserState}
use auth_profile_service.Database.Tables.{find}
use auth_profile_service.Database.World.{UserRow, World, Draw}
use auth_profile_service.Database.Users.Integrity.{IsSound}
use auth_profile_service.Security.Jwt.{Jwt, JwtLaws, is_text, seconds}
use auth_profile_service.Security.Passwords.{Hasher, HasherLaws}

-- A token that carries its claims, and the secret and the algorithm that it was made with.
abbrev pub Sealed : Type 0
Sealed = Fields × (String × String)

abbrev pub is_past : ℕ → Option Json → Bool
is_past now (some (Json.num (ℤ.pos n))) = not (ltb now (n * 1000))
is_past now _ = false

unfoldable pub open_sealed :
    Sealed → (secret algorithm issuer audience : String) → ℕ → Option Fields
unfolding is_text
open_sealed (claims, (secret, algorithm)) s a i u now =
    if secret == s
      && (algorithm == a
          && (is_text i (get "iss" claims)
              && (is_text u (get "aud" claims)
                  && (is_past now (get "iat" claims)
                      && (is_past now (get "nbf" claims)
                          && not (is_past now (get "exp" claims)))))))
    then some claims
    else none

abbrev pub sealing : Jwt Sealed
sealing = record {
  encode = λ claims secret algorithm. (claims, (secret, algorithm));
  decode = open_sealed;
}

pub sealing_laws : JwtLaws sealing
unfolding open_sealed is_text
sealing_laws = record {
  accepts = λ claims secret algorithm issuer audience iat exp now is ia it nb ex from until. simp (
    is,
    ia,
    it,
    nb,
    ex,
    eq_refl secret,
    eq_refl algorithm,
    eq_refl issuer,
    eq_refl audience,
    le→ltb now (iat * 1000) from,
    lt→ltb now (exp * 1000) until,
  );
  refuses_expired = λ claims secret algorithm issuer audience exp now ex late.
      simp (ex, le→ltb now (exp * 1000) late) (ground arith);
}

-- A hash that is the password behind a mark.
abbrev pub marking : Hasher
marking = record {
  hash = λ salt password. "$" ++ password;
  verify = λ password hash. ("$" ++ password) == hash;
}

pub marking_laws : HasherLaws marking
marking_laws = record { verify-hash = λ salt password. eq_refl ("$" ++ password) }

-- Draws of the uuids p0, p1, …
abbrev name_of : String → ℕ → String
name_of p zero = p ++ "0"
name_of p (suc zero) = p ++ "1"
name_of p (suc (suc n)) = p ++ "n"

abbrev pub draw : String → ℕ → Draw
draw p now = record { uuid = name_of p; now = now }

abbrev pub ali : UserRow
ali = record {
  id = "ali";
  email = "ali@a.com";
  password_hash = "$pw";
  display_name = "Ali";
  role = Role.basic_user;
  state = UserState.active;
  created_at = 1000;
}

abbrev pub sam : UserRow
sam = record {
  id = "sam";
  email = "sam@a.com";
  password_hash = "$pw";
  display_name = "Sam";
  role = Role.support;
  state = UserState.active;
  created_at = 2000;
}

-- Two accounts, and nothing else.
abbrev pub office : World
office = record {
  db = record {
    users = ali ∷ sam ∷ [];
    role_requests = [];
    outbox = [];
    login_audit = [];
    profiles = [];
    owned_games = [];
    owned_items = [];
    top_posts = [];
  };
  redis = [];
  kafka = [];
}

pub office-IsSound : IsSound office
unfolding find
office-IsSound = record {
  user_ids = (refl, (refl, tt));
  emails = (refl, (refl, tt));
  request_ids = tt;
  owners = tt;
}
