-- ===== src/Rest/Guards.antt =====
-- The dependencies of the routes for staff: who gets through, and what becomes of the others.
use mathlib.Core.Path.{subst}
use auth_profile_service.Common.{
  ℕ, String, ◌≡◌, refl, sym, ◌∙◌, ◌⊎◌, inl, inr, true, false, Option, none, some, List, [], ◌∷◌,
  arith, Bool-cases, Option-cases,
}
use auth_profile_service.Json.{Fields}
use auth_profile_service.Auth.Enums.{Role, role_eq, role_of_value}
use auth_profile_service.Auth.Errors.{Error, Result, ok, err, Result-cases}
use auth_profile_service.Database.World.{World, Draw}
use auth_profile_service.Database.World
use auth_profile_service.Rest.{
  Framework, CurrentUser, as_unauthorized, role_from, is_allowed, require_roles, get_current_user,
  caller, status_of,
}
use auth_profile_service.Auth.RolePolicy.{
  is_staff, assert_can_grant, assert_can_ban, assert_can_approve_registration,
  assert_can_decide_role_request,
}
use auth_profile_service.Accounts.{grant_role, decide_role_request, decide_registration, ban_user}
use auth_profile_service.Directory.{list_accounts, list_user_ids, list_pending}
use auth_profile_service.Rest.Admin.{AdminRequest, allowed_roles, admin_body, admin_route}
use auth_profile_service.Security.Settings.{Settings}
use auth_profile_service.Security.Jwt.{Jwt, decode_access_token}
use auth_profile_service.Rest.Callers.{
  bind-ok, bind-err, IsAnswered, as_unauthorized-err, require_roles-err, user_of_claims-err,
  IsUserOf, user_of_claims-ok,
}

module _ {Token : Type 0} (jwt : Jwt Token) (s : Settings) (fw : Framework) where
  -- The bearer of a request is an access token that decodes, and names the user.
  abbrev pub IsBearerOf : ℕ → Option Token → CurrentUser → Type 0
  IsBearerOf now bearer user =
      (token : Token) × (claims : Fields) × (bearer ≡ some token)
      × (decode_access_token jwt s now token ≡ ok claims)
      × IsUserOf claims user

  as_unauthorized-ok :
      (r : Result Fields) (claims : Fields) → as_unauthorized r ≡ ok claims → r ≡ ok claims
  as_unauthorized-ok (ok c) claims e = e
  as_unauthorized-ok (err x) claims e = cc

  get_current_user-ok :
      (now : ℕ) (bearer : Option Token) (user : CurrentUser)
      → get_current_user jwt s fw now bearer ≡ ok user
      → IsBearerOf now bearer user
  unfolding get_current_user
  get_current_user-ok now none user e = cc
  get_current_user-ok now (some token) user e =
      let (claims, decoded, named) =
        bind-ok (as_unauthorized (decode_access_token jwt s now token)) _ user e in
      (
        token,
        claims,
        refl,
        as_unauthorized-ok _ claims decoded,
        user_of_claims-ok claims user named,
      )

  require_roles-ok :
      (allowed : List Role) (user user' : CurrentUser)
      → require_roles allowed user ≡ ok user'
      → (user ≡ user') × (is_allowed user'.role allowed ≡ true)
  unfolding require_roles
  require_roles-ok allowed user user' e = elim (Bool-cases (is_allowed user.role allowed)) [
    | inl f ↦
        let same : user ≡ user' = ground (arith, f) in
        (same, subst (λ (u : CurrentUser). is_allowed u.role allowed ≡ true) same f)
    | inr f ↦ ground (arith, f)
  ]

  -- Why a caller is turned away: no credentials, a token that is not accepted (401), a role that is
  -- not allowed (403), or an accepted token without a user or a known role (500).
  abbrev pub IsRefusal : Option Token → Error → Type 0
  IsRefusal bearer e = ((bearer ≡ none) × (e ≡ fw.no_credentials)) ⊎ IsAnswered e

  caller-ok :
      (allowed : List Role) (now : ℕ) (bearer : Option Token) (user : CurrentUser)
      → caller jwt s fw allowed now bearer ≡ ok user
      → IsBearerOf now bearer user × (is_allowed user.role allowed ≡ true)
  unfolding caller
  caller-ok allowed now bearer user e =
      let (found, is_found, passed) = bind-ok (get_current_user jwt s fw now bearer) _ user e in
      let (same, may) = require_roles-ok allowed found user passed in
      (subst (IsBearerOf now bearer) same (get_current_user-ok now bearer found is_found), may)

  caller-err :
      (allowed : List Role) (now : ℕ) (bearer : Option Token) (e : Error)
      → caller jwt s fw allowed now bearer ≡ err e
      → IsRefusal bearer e
  unfolding caller get_current_user
  caller-err allowed now none e h = inl (refl, cc)
  caller-err allowed now (some token) e h =
      inr (elim (bind-err (get_current_user jwt s fw now (some token)) _ e h) [
        | inl f ↦ elim (bind-err (as_unauthorized (decode_access_token jwt s now token)) _ e f) [
          | inl g ↦ as_unauthorized-err _ e g
          | inr (claims, decoded, g) ↦ user_of_claims-err claims e g
        ]
        | inr (user, is_user, g) ↦ require_roles-err allowed user e g
      ])

  -- Every route for staff: either the bearer is an access token that decodes, with the caller's id and
  -- one of the roles that the route names, and the route does its work for that caller; or the
  -- caller is turned away and nothing changes.
  pub admin_route_lem :
      (d : Draw) (bearer : Option Token) (request : AdminRequest) (w : World)
      → ((user : CurrentUser) × IsBearerOf d.now bearer user
          × (is_allowed user.role (allowed_roles request) ≡ true)
          × (admin_route jwt s fw d bearer request w ≡ admin_body d user request w))
        ⊎ ((e : Error) × IsRefusal bearer e
            × (admin_route jwt s fw d bearer request w ≡ (err e, w)))
  unfolding admin_route World.◌>>=◌
  admin_route_lem d bearer request w =
      elim (Result-cases (caller jwt s fw (allowed_roles request) d.now bearer)) [
        | inl (user, e) ↦
            let (is_bearer, may) = caller-ok (allowed_roles request) d.now bearer user e in
            inl (user, is_bearer, may, rw e)
        | inr (e, h) ↦ inr (e, caller-err (allowed_roles request) d.now bearer e h, rw h)
      ]

staff_of_allowed : (r : Role) → is_allowed r (Role.support ∷ Role.admin ∷ []) ≡ is_staff r
unfolding is_allowed is_staff
staff_of_allowed Role.basic_user = refl
staff_of_allowed Role.developer = refl
staff_of_allowed Role.support = refl
staff_of_allowed Role.admin = refl

not_staff : (r : Role) → is_allowed r (Role.support ∷ Role.admin ∷ []) ≡ false → is_staff r ≡ false
not_staff r outside = sym (staff_of_allowed r) ∙ outside

not_admin : (r : Role) → is_allowed r (Role.admin ∷ []) ≡ false → role_eq r Role.admin ≡ false
unfolding is_allowed
not_admin r outside = ground (arith, outside)

role_from-none :
    (text : String) (e : Error)
    → role_from text ≡ err e
    → (role_of_value text ≡ none) × (status_of e ≡ 500)
unfolding role_from status_of
role_from-none text e h = elim (Option-cases (role_of_value text)) [
  | inl f ↦ (f, ground (arith, f))
  | inr (role, f) ↦ ground (arith, f)
]

module _ (Token : Type 0) where
  -- The text of a role that the request carries names none.
  abbrev pub NamesNoRole : AdminRequest → Type 0
  NamesNoRole (AdminRequest.grant id new_role) = role_of_value new_role ≡ none
  NamesNoRole request = ⊥

  -- The body of a route refuses with 403, or with 500 where the text of a role names none, and changes
  -- nothing.
  abbrev pub Refused : CurrentUser → Draw → AdminRequest → World → Type 0
  Refused user d request w =
      (e : Error) × (admin_body {Token = Token} d user request w ≡ (err e, w))
      × ((status_of e ≡ 403) ⊎ (NamesNoRole request × (status_of e ≡ 500)))

  Refused-grant :
      (d : Draw) (user : CurrentUser) (id new_role : String) (w : World)
      → is_allowed user.role (Role.admin ∷ []) ≡ false
      → Refused user d (AdminRequest.grant id new_role) w
  unfolding admin_body World.◌>>=◌ grant_role assert_can_grant is_allowed status_of
  Refused-grant d user id new_role w outside = elim (Result-cases (role_from new_role)) [
    | inl (role, e) ↦ simp (e, not_admin user.role outside) (_, refl, inl refl)
    | inr (x, e) ↦
        let (unnamed, fails) = role_from-none new_role x e in simp e (x, refl, inr (unnamed, fails))
  ]

  -- Without the dependency on the roles the routes for staff would refuse the same callers: for a
  -- caller without one of the roles that the route names, its body answers 403, or 500 where the
  -- request is a grant whose text names no role, and nothing changes.
  pub admin_body-Refused :
      (d : Draw) (user : CurrentUser) (request : AdminRequest) (w : World)
      → is_allowed user.role (allowed_roles request) ≡ false
      → Refused user d request w
  unfolding admin_body World.◌>>=◌ decide_role_request decide_registration ban_user list_accounts
      list_user_ids list_pending assert_can_decide_role_request assert_can_approve_registration
      assert_can_ban allowed_roles status_of
  admin_body-Refused d user (AdminRequest.grant id new_role) w outside =
      Refused-grant d user id new_role w outside
  admin_body-Refused d user (AdminRequest.decide_request id body) w outside =
      rw (not_staff user.role outside) (_, refl, inl refl)
  admin_body-Refused d user (AdminRequest.decide_user id body) w outside =
      rw (not_staff user.role outside) (_, refl, inl refl)
  admin_body-Refused d user (AdminRequest.ban id reason) w outside =
      rw (not_staff user.role outside) (_, refl, inl refl)
  admin_body-Refused d user (AdminRequest.unban id) w outside =
      rw (not_staff user.role outside) (_, refl, inl refl)
  admin_body-Refused d user (AdminRequest.directory state) w outside =
      rw (not_staff user.role outside) (_, refl, inl refl)
  admin_body-Refused d user (AdminRequest.directory_ids state role) w outside =
      rw (not_staff user.role outside) (_, refl, inl refl)
  admin_body-Refused d user AdminRequest.pending_requests w outside =
      rw (not_staff user.role outside) (_, refl, inl refl)
