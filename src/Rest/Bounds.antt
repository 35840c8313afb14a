-- ===== src/Rest/Bounds.antt =====
-- auth_controller.py and auth_dto.py: what a registration has to be before it reaches the use case.
use Prim.Native.String.{count}
use auth_profile_service.Common.{
  ◌≤◌, String, ◌≡◌, refl, ◌⊎◌, inl, inr, true, some, arith, Bool-cases, Option-cases,
}
use auth_profile_service.Auth.Errors.{Result-cases}
use auth_profile_service.Database.World.{World, Draw, ◌>>=◌}
use auth_profile_service.Dto.{RegisterRequest, fits_registration, is_within}
use auth_profile_service.Rest.{Framework}
use auth_profile_service.Rest.Accounts.{Checks, register_route, limited}
use auth_profile_service.Security.Settings.{Settings}
use auth_profile_service.Security.Jwt.{Jwt}
use auth_profile_service.Security.Passwords.{Hasher}
use auth_profile_service.Accounts.{register_user}

-- A password of 8 to 128 characters and a display name of 2 to 64.
abbrev pub IsFit : RegisterRequest → Type 0
IsFit body =
    (8 ≤ count body.password)
    × (count body.password ≤ 128)
    × (2 ≤ count body.display_name)
    × (count body.display_name ≤ 64)

fits-IsFit : (body : RegisterRequest) → fits_registration body ≡ true → IsFit body
unfolding fits_registration is_within
fits-IsFit body e = ground (arith, e)

module _ {Token : Type 0} (jwt : Jwt Token) (s : Settings) (h : Hasher) (fw : Framework)
    (checks : Checks) (salt : String) (d : Draw) (body : RegisterRequest) (w : World) where
  -- A registration that changes anything has a password of 8 to 128 characters, a display name of 2
  -- to 64, an address that the validator accepts and a caller within the rate; and it leaves what
  -- the use case leaves for the address that the validator made.
  pub register_route-bounds :
      ((register_route jwt s h fw checks salt d body w).1 ≡ w)
      ⊎ (IsFit body
          × (checks.within_rate ≡ true)
          × (email : String) × (checks.email_str body.email ≡ some email)
          × ((register_route jwt s h fw checks salt d body w).1
              ≡ (register_user h salt d email body.password body.display_name w).1))
  unfolding register_route ◌>>=◌ limited
  register_route-bounds = elim (Option-cases (checks.email_str body.email)) [
    | inl e ↦ simp e (inl refl)
    | inr (email, e) ↦ elim (Bool-cases (fits_registration body)) [
      | inr f ↦ simp (e, f) (inl refl)
      | inl f ↦ elim (Bool-cases checks.within_rate) [
        | inr g ↦ simp (e, f, g) (inl refl)
        | inl g ↦
            elim (Result-cases (register_user h salt d email body.password body.display_name w).0) [
              | inl (user, i) ↦ inr (fits-IsFit body f, g, email, e, simp (e, f, g, i))
              | inr (x, i) ↦ inr (fits-IsFit body f, g, email, e, simp (e, f, g, i))
            ]
      ]
    ]
  ]
