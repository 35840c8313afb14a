-- ===== src/Database/Keeps.antt =====
-- Invariants of calls, one rule for each way that a call is built.
use auth_profile_service.Common.{Bool, true, false, Option, none, some, if◌then◌else◌}
use auth_profile_service.Auth.Errors.{Error, Result, ok, err}
use auth_profile_service.Database.World.{
  World, Exec, pure, raise, lift, or_raise, raise_if_found, ◌>>=◌,
}

-- The call keeps the invariant, whether it returns or raises.
pub record Keeps {A : Type 0} (P : World → Type 0) (m : Exec A) : Type 0 where
  pub at_state : (w : World) → P w → P (m w).1

module _ {A : Type 0} {P : World → Type 0} where
  pub Keeps-pure : (a : A) → Keeps P (pure a)
  unfolding ◌>>=◌
  Keeps-pure a = record { at_state = λ w h. h }

  pub Keeps-raise : (e : Error) → Keeps P (raise {A = A} e)
  unfolding ◌>>=◌
  Keeps-raise e = record { at_state = λ w h. h }

  pub Keeps-lift : (r : Result A) → Keeps P (lift r)
  unfolding ◌>>=◌
  Keeps-lift r = record { at_state = λ w h. h }

  pub Keeps-or_raise : (o : Option A) (e : Error) → Keeps P (or_raise o e)
  unfolding ◌>>=◌
  Keeps-or_raise none e = record { at_state = λ w h. h }
  Keeps-or_raise (some a) e = record { at_state = λ w h. h }

  pub Keeps-raise_if_found : (o : Option A) (e : Error) → Keeps P (raise_if_found o e)
  unfolding ◌>>=◌
  Keeps-raise_if_found none e = record { at_state = λ w h. h }
  Keeps-raise_if_found (some a) e = record { at_state = λ w h. h }

  pub Keeps-if : (b : Bool) (m n : Exec A) → Keeps P m → Keeps P n → Keeps P (if b then m else n)
  Keeps-if true m n km kn = km
  Keeps-if false m n km kn = kn

module _ {A B : Type 0} {P : World → Type 0} where
  keeps_continue :
      (r : Result A) (f : A → Exec B)
      → ((a : A) → Keeps P (f a))
      → (w : World) → P w
      → P ((lift r >>= f) w).1
  unfolding ◌>>=◌
  keeps_continue (ok a) f kf w h = (kf a).at_state w h
  keeps_continue (err e) f kf w h = h

  pub Keeps-bind :
      (m : Exec A) (f : A → Exec B) → Keeps P m → ((a : A) → Keeps P (f a)) → Keeps P (m >>= f)
  unfolding ◌>>=◌
  Keeps-bind m f km kf = record {
    at_state = λ w h. let (r, w') = m w in keeps_continue r f kf w' (km.at_state w h);
  }

pub ruleset keeps_rules = (
  Keeps-pure, Keeps-raise, Keeps-lift, Keeps-or_raise, Keeps-raise_if_found, Keeps-if, Keeps-bind,
)
