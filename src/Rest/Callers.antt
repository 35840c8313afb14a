-- ===== src/Rest/Callers.antt =====
-- The token of a request: who it names, and what a bad one answers.
use auth_profile_service.Common.{
  String, ◌≡◌, refl, ap, ◌∙◌, ◌⊎◌, inl, inr, some, List, arith, eq_iff,
}
use auth_profile_service.Json.{Json, Fields, get}
use auth_profile_service.Auth.Enums.{Role, role_value, role_of_value}
use auth_profile_service.Auth.Errors.{Error, Result, ok, err, ◌>>=◌}
use auth_profile_service.Rest.{
  CurrentUser, as_unauthorized, role_from, user_of_claims, require_roles, status_of,
}
use auth_profile_service.Security.Jwt.{text_claim}

pub bind-ok :
    {A B : Type 0} (r : Result A) (f : A → Result B) (b : B)
    → r >>= f ≡ ok b
    → (a : A) × (r ≡ ok a) × (f a ≡ ok b)
bind-ok (ok a) f b e = (a, refl, e)
bind-ok (err x) f b e = cc

pub bind-err :
    {A B : Type 0} (r : Result A) (f : A → Result B) (e : Error)
    → r >>= f ≡ err e
    → (r ≡ err e) ⊎ ((a : A) × (r ≡ ok a) × (f a ≡ err e))
bind-err (ok a) f e h = inr (a, refl, h)
bind-err (err x) f e h = inl (ground arith)

-- What a refusal that is made of a token or a role answers.
abbrev pub IsAnswered : Error → Type 0
IsAnswered e = (status_of e ≡ 401) ⊎ ((status_of e ≡ 403) ⊎ (status_of e ≡ 500))

pub as_unauthorized-err : (r : Result Fields) (e : Error) → as_unauthorized r ≡ err e → IsAnswered e
unfolding status_of
as_unauthorized-err (ok c) e h = cc
as_unauthorized-err (err x) e h = inl (ground arith)

text_claim-err :
    (k : String) (claims : Fields) (e : Error) → text_claim k claims ≡ err e → IsAnswered e
unfolding text_claim status_of
text_claim-err k claims e h = inr (inr (ground arith))

pub role_from-err : (text : String) (e : Error) → role_from text ≡ err e → IsAnswered e
unfolding role_from status_of
role_from-err text e h = inr (inr (ground arith))

pub require_roles-err :
    (allowed : List Role) (user : CurrentUser) (e : Error)
    → require_roles allowed user ≡ err e
    → IsAnswered e
unfolding require_roles status_of
require_roles-err allowed user e h = inr (inl (ground arith))

pub user_of_claims-err :
    (claims : Fields) (e : Error) → user_of_claims claims ≡ err e → IsAnswered e
unfolding user_of_claims
user_of_claims-err claims e h = elim (bind-err (text_claim "sub" claims) _ e h) [
  | inl f ↦ text_claim-err "sub" claims e f
  | inr (user_id, is_sub, after_sub) ↦ elim (bind-err (text_claim "role" claims) _ e after_sub) [
    | inl f ↦ text_claim-err "role" claims e f
    | inr (text, is_role, after_text) ↦ elim (bind-err (role_from text) _ e after_text) [
      | inl f ↦ role_from-err text e f
      | inr (role, named, made) ↦ cc
    ]
  ]
]

role_of_value-some : (text : String) (r : Role) → role_of_value text ≡ some r → text ≡ role_value r
unfolding role_of_value role_value
role_of_value-some text r e = ground (
  arith,
  eq_iff text "BASIC_USER",
  eq_iff text "DEVELOPER",
  eq_iff text "SUPPORT",
  eq_iff text "ADMIN",
)

text_claim-ok :
    (k : String) (claims : Fields) (t : String)
    → text_claim k claims ≡ ok t
    → get k claims ≡ some (Json.str t)
unfolding text_claim
text_claim-ok k claims t e = ground arith

-- The claims name the user.
abbrev pub IsUserOf : Fields → CurrentUser → Type 0
IsUserOf claims user =
    (get "sub" claims ≡ some (Json.str user.user_id))
    × (get "role" claims ≡ some (Json.str (role_value user.role)))

role_from-ok : (text : String) (r : Role) → role_from text ≡ ok r → text ≡ role_value r
unfolding role_from
role_from-ok text r e = role_of_value-some text r (ground arith)

abbrev named_user : String → Role → Result CurrentUser
named_user user_id role = ok (record { user_id = user_id; role = role })

IsUserOf-parts :
    (claims : Fields) (user : CurrentUser) (user_id text : String) (role : Role)
    → text_claim "sub" claims ≡ ok user_id
    → text_claim "role" claims ≡ ok text
    → role_from text ≡ ok role
    → named_user user_id role ≡ ok user
    → IsUserOf claims user
IsUserOf-parts claims user user_id text role is_sub is_role named made =
    let same : record { user_id = user_id; role = role } ≡ user = cc in
    (
      text_claim-ok "sub" claims user_id is_sub
          ∙ ap (λ (u : CurrentUser). some (Json.str u.user_id)) same,
      text_claim-ok "role" claims text is_role
          ∙ ap (λ x. some (Json.str x)) (role_from-ok text role named)
          ∙ ap (λ (u : CurrentUser). some (Json.str (role_value u.role))) same,
    )

pub user_of_claims-ok :
    (claims : Fields) (user : CurrentUser) → user_of_claims claims ≡ ok user → IsUserOf claims user
unfolding user_of_claims role_from
user_of_claims-ok claims user e =
    let (user_id, is_sub, after_sub) = bind-ok (text_claim "sub" claims) _ user e in
    let (text, is_role, after_text) = bind-ok (text_claim "role" claims) _ user after_sub in
    let (role, named, made) = bind-ok (role_from text) _ user after_text in
    IsUserOf-parts claims user user_id text role is_sub is_role named made
