-- ===== src/Database/Search.antt =====
-- app/infrastructure/db/repositories/user_repository.py: the searches that order their rows. The
-- server's ILIKE and its order of texts are parameters.
pub mod Like
use Prim.Native.Char.{Char, code}
use Prim.Native.String.{◌++◌}
use auth_profile_service.Common.{
  ℕ, String, Bool, true, not, ◌&&◌, ◌||◌, Option, none, some, List, [], ◌∷◌, map, ◌==◌, leb, nat_eq,
  if◌then◌else◌, select, take, strip, is_empty,
}
use auth_profile_service.Auth.Enums.{UserState, state_eq}
use auth_profile_service.Auth.Errors.{ok}
use auth_profile_service.Auth.User.{User}
use auth_profile_service.Database.World.{UserRow, Exec}
use auth_profile_service.Database.Users.{to_domain_user}

-- `text.replace(c, by)` for one character, given by its code.
unfoldable pub replace : (c : ℕ) (by : String) → String → String
replace c by String.[] = String.[]
replace c by (String.◌∷◌ d s) =
    let rest = replace c by s in if nat_eq (code d) c then by ++ rest else String.◌∷◌ d rest

-- `_like_fragment`
unfoldable pub like_fragment : String → String
unfolding replace
like_fragment query = replace b'_' "!_" (replace b'%' "!%" (replace b'!' "!!" query))

-- Rows in the order of a key: equal keys stay in the order of the table.
module _ (before : UserRow → UserRow → Bool) where
  unfoldable pub insert_in_order : UserRow → List UserRow → List UserRow
  insert_in_order r [] = r ∷ []
  insert_in_order r (s ∷ t) = if before r s then r ∷ s ∷ t else s ∷ insert_in_order r t

  unfoldable pub in_order : List UserRow → List UserRow
  unfolding insert_in_order
  in_order [] = []
  in_order (r ∷ t) = insert_in_order r (in_order t)

-- `order_by(created_at.desc())`
unfoldable pub is_newer : UserRow → UserRow → Bool
is_newer r s = leb s.created_at r.created_at

-- `state is None or row.state == state`
abbrev pub in_state : Option UserState → UserState → Bool
in_state none s = true
in_state (some wanted) s = state_eq s wanted

unfoldable pub list_users : Option UserState → Exec (List User)
unfolding in_order is_newer to_domain_user
list_users state w =
    (ok (map to_domain_user (select (λ r. in_state state r.state) (in_order is_newer w.users))), w)

-- The server's `ILIKE … ESCAPE '!'`, and its order of display names.
pub record TextSearch : Type 0 where
  pub ilike : (text pattern : String) → Bool
  pub precedes : String → String → Bool

module _ (server : TextSearch) where
  -- The conditions of `search_active` on one row, for a query that was stripped.
  unfoldable pub is_hit : (fragment exclude_user_id : String) → UserRow → Bool
  is_hit fragment exclude_user_id r =
      state_eq r.state UserState.active
      && ((server.ilike r.email (fragment ++ "%")
            || (server.ilike r.display_name (fragment ++ "%")
                || server.ilike r.display_name ("% " ++ (fragment ++ "%"))))
          && (is_empty exclude_user_id || not (r.id == exclude_user_id)))

  unfoldable pub search_active : String → (limit : ℕ) (exclude_user_id : String) → Exec (List User)
  unfolding like_fragment is_hit in_order to_domain_user
  search_active query limit exclude_user_id w = (
    ok (
        map to_domain_user (
          take limit (
            in_order (λ r s. server.precedes r.display_name s.display_name)
              (select (is_hit (like_fragment (strip query)) exclude_user_id) w.users)))),
    w,
  )
