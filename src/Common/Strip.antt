-- ===== src/Common/Strip.antt =====
-- What `str.strip` leaves has no whitespace at its ends.
use Prim.Native.Char.{code}
use Prim.Native.String.{String}
use mathlib.Core.Bool.{false}
use mathlib.Core.Logic.{inl, inr}
use mathlib.Core.Path.{◌≡◌, refl, ap, ◌∙◌}
use native.Mathlib.Omega.{arith}
use auth_profile_service.Common.Logic.{Bool-cases}
use auth_profile_service.Common.Text.{is_space, lstrip, rstrip, strip}

-- A text that `lstrip` leaves as it is.
abbrev IsTrimmed : String → Type 0
IsTrimmed String.[] = Unit
IsTrimmed (String.◌∷◌ c s) = is_space (code c) ≡ false

lstrip-IsTrimmed : (s : String) → IsTrimmed (lstrip s)
unfolding lstrip
lstrip-IsTrimmed String.[] = tt
lstrip-IsTrimmed (String.◌∷◌ c s) = elim (Bool-cases (is_space (code c))) [
  | inl e ↦ rw (e, lstrip) (lstrip-IsTrimmed s)
  | inr e ↦ rw (e, lstrip) e
]

lstrip_trimmed : (s : String) → IsTrimmed s → lstrip s ≡ s
unfolding lstrip
lstrip_trimmed String.[] h = refl
lstrip_trimmed (String.◌∷◌ c s) h = rw h

rstrip-IsTrimmed : (s : String) → IsTrimmed s → IsTrimmed (rstrip s)
unfolding rstrip
rstrip-IsTrimmed String.[] h = tt
rstrip-IsTrimmed (String.◌∷◌ c s) h = rw (h, rstrip) h

rstrip_idempotent : (s : String) → rstrip (rstrip s) ≡ rstrip s
unfolding rstrip
rstrip_idempotent String.[] = refl
rstrip_idempotent (String.◌∷◌ c s) = ground (arith, rstrip_idempotent s)

pub strip_idempotent : (s : String) → strip (strip s) ≡ strip s
unfolding strip
strip_idempotent s =
    ap rstrip
      (lstrip_trimmed (rstrip (lstrip s)) (rstrip-IsTrimmed (lstrip s) (lstrip-IsTrimmed s)))
    ∙ rstrip_idempotent (lstrip s)
