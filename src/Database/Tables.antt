-- ===== src/Database/Tables.antt =====
-- A table is the list of its rows, in the order in which the server returns them when a statement
-- asks for none. A `column` is the text that a row is looked up by.
use auth_profile_service.Common.{
  String, ◌≡◌, refl, Bool, Option, none, some, List, [], ◌∷◌, ◌++◌, arith, ◌==◌, eq_iff,
  if◌then◌else◌, select,
}
use auth_profile_service.Auth.Errors.{Error, Result, ok, err}

-- `scalar_one_or_none()`: it raises where there is more than one row.
unfoldable pub scalar_one_or_none {ℓ} : {A : Type ℓ} → List A → Result (Option A)
scalar_one_or_none [] = ok none
scalar_one_or_none (x ∷ []) = ok (some x)
scalar_one_or_none (x ∷ y ∷ rest) = err Error.multiple_results_found

module _ {Row : Type 0} (column : Row → String) where
  unfoldable pub find : String → List Row → Option Row
  find k [] = none
  find k (r ∷ t) = if column r == k then some r else find k t

  -- Writes to the row that has the key, or adds a row.
  unfoldable pub put : Row → List Row → List Row
  put r [] = r ∷ []
  put r (s ∷ t) = if column s == column r then r ∷ t else s ∷ put r t

  unfoldable pub remove : (Row → Bool) → List Row → List Row
  remove p [] = []
  remove p (r ∷ t) = let rest = remove p t in if p r then rest else r ∷ rest

  -- No two rows agree in the column.
  abbrev pub Unique : List Row → Type 0
  Unique [] = Unit
  Unique (r ∷ t) = (find (column r) t ≡ none) × Unique t

  pub find-put :
      (k : String) (r : Row) (t : List Row)
      → find k (put r t) ≡ (if column r == k then some r else find k t)
  unfolding find put
  find-put k r [] = refl
  find-put k r (s ∷ t) = ground (
    arith,
    find-put k r t,
    eq_iff (column s) (column r),
    eq_iff (column s) k,
    eq_iff (column r) k,
  )

  pub put-Unique : (r : Row) (t : List Row) → Unique t → Unique (put r t)
  unfolding put
  put-Unique r [] h = (unfold find in refl, tt)
  put-Unique r (s ∷ t) h = ground (
    arith,
    put-Unique r t h.1,
    find-put (column s) r t,
    eq_iff (column s) (column r),
    eq_iff (column r) (column s),
  )

  -- A row that is found has the key.
  pub column-find : (k : String) (t : List Row) (r : Row) → find k t ≡ some r → column r ≡ k
  unfolding find
  column-find k [] r h = cc
  column-find k (s ∷ t) r h = ground (arith, column-find k t r, eq_iff (column s) k)

  pub find-append :
      (k : String) (t u : List Row)
      → find k (t ++ u) ≡ elim (find k t) [ none ↦ find k u | some r ↦ some r ]
  unfolding find
  find-append k [] u = refl
  find-append k (s ∷ t) u = ground (arith, find-append k t u)

  select-none : (k : String) (t : List Row) → find k t ≡ none → select (λ r. column r == k) t ≡ []
  unfolding find select
  select-none k [] h = refl
  select-none k (s ∷ t) h = ground (arith, select-none k t)

  -- In a unique column, the select on it yields the row that is found, and never raises.
  pub scalar-select :
      (k : String) (t : List Row)
      → Unique t
      → scalar_one_or_none (select (λ r. column r == k) t) ≡ ok (find k t)
  unfolding find select scalar_one_or_none
  scalar-select k [] h = refl
  scalar-select k (s ∷ t) h =
      ground (arith, scalar-select k t h.1, select-none k t, eq_iff (column s) k)
