-- ===== src/Database/Profiles.antt =====
-- app/infrastructure/db/repositories/profile_repository.py: the profile read-model. A foreign key
-- ties what a profile holds to its row, and a row that is added checks it.
use mathlib.Core.Option
use auth_profile_service.Common.{
  ℕ, String, Bool, true, false, ◌&&◌, ◌||◌, not, Option, none, some, List, [], ◌∷◌, ◌++◌, map, ◌==◌,
  if◌then◌else◌, select, leb,
}
use auth_profile_service.Auth.Errors.{Error, Result, ok, err}
use auth_profile_service.Profile.{Profile, OwnedGame, OwnedItem}
use auth_profile_service.Database.Tables.{find, put, remove, scalar_one_or_none}
use auth_profile_service.Database.World.{
  ProfileRow, OwnedGameRow, OwnedItemRow, TopPostRow, World, Exec, ◌>>◌,
}

abbrev bool_eq : Bool → Bool → Bool
bool_eq true b = b
bool_eq false b = not b

abbrev pub find_profile : String → List ProfileRow → Option ProfileRow
find_profile = find (λ r. r.user_id)

unfoldable pub to_domain_profile :
    ProfileRow → List OwnedGameRow → List OwnedItemRow → List TopPostRow → Profile
to_domain_profile row games items posts = record {
  user_id = row.user_id;
  display_name = row.display_name;
  avatar_url = row.avatar_url;
  online = row.online;
  owned_games =
      map
        (λ (g : OwnedGameRow). record {
          id = g.id;
          user_id = g.user_id;
          game_id = g.game_id;
          hidden = g.hidden;
          acquired_at = g.acquired_at;
        })
        games;
  owned_items =
      map
        (λ (i : OwnedItemRow). record {
          id = i.id;
          user_id = i.user_id;
          item_id = i.item_id;
          game_id = i.game_id;
          acquired_at = i.acquired_at;
        })
        items;
  top_posts =
      map
        (λ (p : TopPostRow). record {
          id = p.id;
          user_id = p.user_id;
          post_id = p.post_id;
          feedback_score = p.feedback_score;
          rank = p.rank;
        })
        posts;
  updated_at = row.updated_at;
}

-- `order_by(rank)`: equal ranks stay in the order of the table.
unfoldable pub insert_by_rank : TopPostRow → List TopPostRow → List TopPostRow
insert_by_rank p [] = p ∷ []
insert_by_rank p (q ∷ qs) = if leb p.rank q.rank then p ∷ q ∷ qs else q ∷ insert_by_rank p qs

unfoldable pub order_by_rank : List TopPostRow → List TopPostRow
unfolding insert_by_rank
order_by_rank [] = []
order_by_rank (p ∷ ps) = insert_by_rank p (order_by_rank ps)

unfoldable pub profile_of : World → ProfileRow → Profile
unfolding to_domain_profile order_by_rank
profile_of w row =
    to_domain_profile row (select (λ (g : OwnedGameRow). g.user_id == row.user_id) w.owned_games)
      (select (λ (i : OwnedItemRow). i.user_id == row.user_id) w.owned_items)
      (order_by_rank (select (λ (p : TopPostRow). p.user_id == row.user_id) w.top_posts))

unfoldable pub get_by_user_id : String → Exec (Option Profile)
unfolding profile_of
get_by_user_id user_id w = (ok (Option.map (profile_of w) (find_profile user_id w.profiles)), w)

-- The flush writes a column that differs from the row that was loaded.
abbrev is_changed : Profile → ProfileRow → Bool
is_changed p row =
    not (p.display_name == row.display_name)
    || (not (p.avatar_url == row.avatar_url) || not (bool_eq p.online row.online))

-- The row that `save` leaves: a new one, or the one that is there. `onupdate` moves `updated_at` only with
-- an UPDATE, which a row without a changed column does not get.
abbrev pub saved_row : ℕ → Profile → Option ProfileRow → ProfileRow
saved_row now p none = record {
  user_id = p.user_id;
  display_name = p.display_name;
  avatar_url = p.avatar_url;
  online = p.online;
  updated_at = now;
}
saved_row now p (some row) = record {
  user_id = row.user_id;
  display_name = p.display_name;
  avatar_url = p.avatar_url;
  online = p.online;
  updated_at = if is_changed p row then now else row.updated_at;
}

unfoldable pub save : ℕ → Profile → Exec (Unit {0})
save now p w = (
  ok tt,
  record w {
    db = record w.db {
      profiles =
          put (λ r. r.user_id) (saved_row now p (find_profile p.user_id w.profiles)) w.profiles;
    };
  },
)

-- `insert … on conflict do nothing`
unfoldable pub insert_if_missing : ℕ → String → String → List ProfileRow → List ProfileRow
insert_if_missing now user_id display_name t = elim (find_profile user_id t) [
  | none ↦
      t
      ++ record {
        user_id = user_id;
        display_name = display_name;
        avatar_url = "";
        online = false;
        updated_at = now;
      }
        ∷ []
  | some row ↦ t
]

unfoldable pub create_if_missing : ℕ → String → String → Exec (Option Profile)
unfolding insert_if_missing get_by_user_id
create_if_missing now user_id display_name w = get_by_user_id user_id (record w {
  db = record w.db { profiles = insert_if_missing now user_id display_name w.profiles };
})

-- The foreign key on `profiles.user_id`.
unfoldable pub check_profile : String → Exec (Unit {0})
check_profile user_id w = elim (find_profile user_id w.profiles) [
  | none ↦ (err Error.integrity_error, w)
  | some row ↦ (ok tt, w)
]

unfoldable pub append_game : OwnedGame → Exec (Unit {0})
append_game g w = (
  ok tt,
  record w {
    db = record w.db {
      owned_games =
          w.owned_games
          ++ record {
            id = g.id;
            user_id = g.user_id;
            game_id = g.game_id;
            hidden = g.hidden;
            acquired_at = g.acquired_at;
          }
            ∷ [];
    };
  },
)

unfoldable pub add_owned_game : OwnedGame → Exec (Unit {0})
unfolding check_profile append_game
add_owned_game g = do check_profile g.user_id; append_game g

abbrev pub is_game : String → String → OwnedGameRow → Bool
is_game user_id game_id g = g.user_id == user_id && g.game_id == game_id

abbrev is_found : Result (Option OwnedGameRow) → Result Bool
is_found (ok none) = ok false
is_found (ok (some row)) = ok true
is_found (err e) = err e

unfoldable pub owns_game : String → String → Exec Bool
owns_game user_id game_id w =
    (is_found (scalar_one_or_none (select (is_game user_id game_id) w.owned_games)), w)

unfoldable pub remove_owned_game : String → String → Exec (Unit {0})
remove_owned_game user_id game_id w = (
  ok tt,
  record w {
    db = record w.db {
      owned_games = remove (λ (g : OwnedGameRow). g.id) (is_game user_id game_id) w.owned_games;
    };
  },
)

unfoldable pub append_item : OwnedItem → Exec (Unit {0})
append_item i w = (
  ok tt,
  record w {
    db = record w.db {
      owned_items =
          w.owned_items
          ++ record {
            id = i.id;
            user_id = i.user_id;
            item_id = i.item_id;
            game_id = i.game_id;
            acquired_at = i.acquired_at;
          }
            ∷ [];
    };
  },
)

unfoldable pub add_owned_item : OwnedItem → Exec (Unit {0})
unfolding check_profile append_item
add_owned_item i = do check_profile i.user_id; append_item i

-- The rows of one game with `hidden` written, where there is exactly one; the row that was loaded is
-- found again by its key.
unfoldable pub hide_row : Bool → Option OwnedGameRow → List OwnedGameRow → List OwnedGameRow
hide_row b none t = t
hide_row b (some row) t = put (λ g. g.id) (record row { hidden = b }) t

abbrev hidden_set : Bool → Result (Option OwnedGameRow) → Exec (Unit {0})
hidden_set b (err e) w = (err e, w)
hidden_set b (ok o) w =
    (ok tt, record w { db = record w.db { owned_games = hide_row b o w.owned_games } })

unfoldable pub set_hidden : String → String → Bool → Exec (Unit {0})
unfolding hide_row
set_hidden user_id game_id hidden w =
    hidden_set hidden (scalar_one_or_none (select (is_game user_id game_id) w.owned_games)) w
