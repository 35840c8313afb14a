-- ===== src/Startup/Health.antt =====
-- app/main.py: the probes.
use Prim.Native.String.{count}
use text.Mathlib.TextLemmas.{length-nil, length-cons}
use auth_profile_service.Common.{
  arith, ◌≤◌, ◌≡◌, refl, ℕ, zero, suc, String, Bool, true, false, Option, none, some, if◌then◌else◌,
}
use auth_profile_service.Json.{Json, Fields, end, field, get}
use auth_profile_service.Security.Settings.{Settings}

-- `text[:n]`
unfoldable pub prefix : ℕ → String → String
prefix zero text = ""
prefix (suc n) String.[] = ""
prefix (suc n) (String.◌∷◌ c text) = String.◌∷◌ c (prefix n text)

-- What a probe of a dependency found: nothing wrong, or the text of what was raised.
abbrev pub Probe : Type 0
Probe = Option String

unfoldable pub check : (if_down : String) → Probe → Fields
unfolding prefix
check if_down none = field "status" (Json.str "UP") end
check if_down (some error) =
    field "status" (Json.str if_down) (field "error" (Json.str (prefix 200 error)) end)

-- A response of the probes: its status and its body.
pub record Report : Type 0 where
  pub status_code : ℕ
  pub content : Fields

abbrev pub is_up : Probe → Bool
is_up none = true
is_up (some error) = false

unfoldable pub livez : Report
livez = record { status_code = 200; content = field "status" (Json.str "UP") end }

unfoldable pub readyz : Settings → (postgres redis : Probe) → Report
unfolding check
readyz s postgres redis = record {
  status_code = if is_up postgres then 200 else 503;
  content = field "status" (Json.str (if is_up postgres then "UP" else "DOWN")) (
      field "service" (Json.str s.app_name) (
        field "checks"
          (Json.obj (
            field "postgres" (Json.obj (check "DOWN" postgres))
              (field "redis" (Json.obj (check "DEGRADED" redis)) end)))
          end));
}

unfoldable pub health : Settings → Report
health s = record {
  status_code = 200;
  content = field "status" (Json.str "ok") (field "service" (Json.str s.app_name) end);
}

prefix-le : (n : ℕ) (text : String) → count (prefix n text) ≤ n
unfolding prefix
prefix-le zero text = omega (arith, length-nil)
prefix-le (suc n) String.[] = omega (arith, length-nil)
prefix-le (suc n) (String.◌∷◌ c text) =
    omega (arith, prefix-le n text, length-cons c (prefix n text))

-- The readiness probe answers 200 where Postgres answers and 503 where it does not. What becomes of Redis
-- changes neither that nor what the report says of Postgres. The text of an error is cut to 200 characters.
pub readyz_lem :
    (s : Settings) (redis : Probe)
    → ((readyz s none redis).status_code ≡ 200)
      × ((error : String) → (readyz s (some error) redis).status_code ≡ 503)
      × ((postgres redis' : Probe)
          → (readyz s postgres redis).status_code ≡ (readyz s postgres redis').status_code
            × (get "status" (readyz s postgres redis).content
                ≡ get "status" (readyz s postgres redis').content))
      × ((error : String)
          → (text : String) × (get "error" (check "DOWN" (some error)) ≡ some (Json.str text))
            × (count text ≤ 200))
unfolding readyz check get
readyz_lem s redis = (
  refl,
  λ error. refl,
  λ postgres redis'. (refl, refl),
  λ error. (prefix 200 error, refl, prefix-le 200 error),
)
