-- ===== src/ReadModel.antt =====
-- app/application/use_cases/profile: the profile's use cases, and the projectors that build the
-- read-model from events.
pub mod Library
pub mod Revocation
pub mod Visibility
pub mod Inventory
use auth_profile_service.Common.{
  ℕ, String, Bool, true, false, ◌||◌, Option, none, some, List, [], ◌∷◌, ◌==◌, if◌then◌else◌,
  is_empty,
}
use auth_profile_service.Json.{Json, Fields, get, is_truthy}
use auth_profile_service.Json.Int.{ℤ}
use auth_profile_service.Auth.Errors.{Error, Result, ok, err}
use auth_profile_service.Database.World.{
  World, Draw, Exec, pure, raise, lift, or_raise, ◌>>=◌, ◌>>◌,
}
use auth_profile_service.Database.Redis.{is_online}
use auth_profile_service.Database.Profiles.{
  get_by_user_id, save, create_if_missing, owns_game, add_owned_game, remove_owned_game,
  add_owned_item, set_hidden,
}
use auth_profile_service.Database.TopPosts.{upsert_top_post}
use auth_profile_service.Profile
use auth_profile_service.Profile.{Profile, OwnedGame, visible_games}
use auth_profile_service.Messaging.Envelope.{text_or_empty}

-- `event[key]` where it is written to a text column: the driver refuses another value.
unfoldable pub required_text : String → Fields → Result String
required_text k f = elim (get k f) [
  | none ↦ err Error.key_error
  | some v ↦ elim v [ Json.str s ↦ ok s | other ↦ err Error.value_error ]
]

-- `event.get(key, "")`, written to a text column.
unfoldable pub optional_text : String → Fields → Result String
optional_text k f = elim (get k f) [
  | none ↦ ok ""
  | some v ↦ elim v [ Json.str s ↦ ok s | other ↦ err Error.value_error ]
]

-- `event[key]`, written to a column of integers.
unfoldable pub required_number : String → Fields → Result ℤ
required_number k f = elim (get k f) [
  | none ↦ err Error.key_error
  | some v ↦ elim v [ Json.num n ↦ ok n | other ↦ err Error.value_error ]
]

-- `GetProfileUseCase.execute`
unfoldable pub get_profile : ℕ → String → Exec Profile
get_profile now user_id = do
  found ← get_by_user_id user_id
  profile ← or_raise found (Error.profile_not_found user_id)
  online ← is_online now user_id
  pure (record profile { online = online })

-- The games that the profile's page shows to a caller: all of them to the owner alone.
unfoldable pub shown_games : Option String → String → Profile → List OwnedGame
unfolding visible_games
shown_games none user_id profile = visible_games profile
shown_games (some caller) user_id profile =
    if caller == user_id then profile.owned_games else visible_games profile

-- `HideGameUseCase.execute`
unfoldable pub hide_owned_game : String → String → Bool → Exec (Unit {0})
hide_owned_game user_id game_id hidden = set_hidden user_id game_id hidden

-- `SetAvatarUseCase.execute`
unfoldable pub store_avatar : ℕ → String → String → Exec (Unit {0})
store_avatar now user_id avatar_url = do
  found ← get_by_user_id user_id
  profile ← or_raise found (Error.profile_not_found user_id)
  save now (Profile.set_avatar avatar_url profile)

-- `UserSyncProjector.handle`
unfoldable pub project_user : Draw → Fields → Exec (Option Profile)
unfolding required_text optional_text
project_user d event = do
  user_id ← lift (required_text "user_id" event)
  display_name ← lift (optional_text "display_name" event)
  create_if_missing d.now user_id display_name

-- `InventoryProjector.handle`
unfoldable pub project_inventory : Draw → Fields → Exec (Unit {0})
unfolding required_text optional_text
project_inventory d event = do
  user_id ← lift (required_text "user_id" event)
  display_name ← lift (optional_text "display_name" event)
  create_if_missing d.now user_id display_name
  item_id ← lift (required_text "item_id" event)
  game_id ← lift (required_text "game_id" event)
  add_owned_item (record {
    id = d.uuid 0;
    user_id = user_id;
    item_id = item_id;
    game_id = game_id;
    acquired_at = d.now;
  })

-- `TopPostsProjector.handle`
unfoldable pub project_top_posts : Draw → Fields → Exec (Unit {0})
unfolding required_text optional_text required_number
project_top_posts d event = do
  author_id ← lift (required_text "author_id" event)
  display_name ← lift (optional_text "display_name" event)
  create_if_missing d.now author_id display_name
  post_id ← lift (required_text "post_id" event)
  feedback_score ← lift (required_number "feedback_score" event)
  upsert_top_post (record {
    id = d.uuid 0;
    user_id = author_id;
    post_id = post_id;
    feedback_score = feedback_score;
    rank = 0;
  })

abbrev first_true : Option Json → Option Json → Option Json
first_true none w = w
first_true (some v) w = if is_truthy v then some v else w

-- `LibraryProjector.handle`, from the checked owner and game on.
unfoldable pub grant_game : Draw → (user_id game_id : String) → Exec (Unit {0})
grant_game d user_id game_id = do
  create_if_missing d.now user_id ""
  owned ← owns_game user_id game_id
  if owned
      then pure tt
      else add_owned_game (record {
        id = d.uuid 0;
        user_id = user_id;
        game_id = game_id;
        hidden = false;
        acquired_at = d.now;
      })

module _ (printed : Json → String) where
  -- `_owner_of`
  unfoldable pub owner_of : Fields → String
  unfolding text_or_empty
  owner_of payload =
      text_or_empty printed (first_true (get "owner_id" payload) (get "user_id" payload))

  abbrev pub game_of : Fields → String
  game_of payload = text_or_empty printed (get "game_id" payload)

  -- `LibraryProjector.handle`
  unfoldable pub project_ownership_granted : Draw → Fields → Exec (Unit {0})
  unfolding owner_of grant_game
  project_ownership_granted d payload =
      if is_empty (owner_of payload) || is_empty (game_of payload)
      then raise Error.value_error
      else grant_game d (owner_of payload) (game_of payload)

  -- `LibraryProjector.revoke`
  unfoldable pub project_ownership_revoked : Fields → Exec (Unit {0})
  unfolding owner_of
  project_ownership_revoked payload =
      if is_empty (owner_of payload) || is_empty (game_of payload)
      then raise Error.value_error
      else remove_owned_game (owner_of payload) (game_of payload)
