-- ===== src/Rest/Profiles.antt =====
-- app/presentation/rest: profile_controller.py and library_controller.py.
use auth_profile_service.Common.{ℕ, String, Bool, Option, none, some, map, if◌then◌else◌}
use auth_profile_service.Database.World.{Exec, pure, raise, lift, ◌>>=◌, ◌>>◌}
use auth_profile_service.Dto.{Content, ProfileResponse, OwnedGameResponse, is_within}
use auth_profile_service.Profile.{Profile, OwnedGame, OwnedItem, TopPost}
use auth_profile_service.ReadModel.{get_profile, shown_games, hide_owned_game, store_avatar}
use auth_profile_service.Rest.{Framework, CurrentUser, get_current_user, get_optional_user}
use auth_profile_service.Security.Settings.{Settings}
use auth_profile_service.Security.Jwt.{Jwt}

abbrev pub id_of : Option CurrentUser → Option String
id_of none = none
id_of (some user) = some user.user_id

abbrev pub game_entry : OwnedGame → OwnedGameResponse
game_entry g = record { game_id = g.game_id; hidden = g.hidden }

-- The page of a profile under the id that was asked for, for a caller or a visitor.
unfoldable pub profile_page : Option String → (user_id : String) → Profile → ProfileResponse
unfolding shown_games
profile_page current_user user_id profile = record {
  user_id = profile.user_id;
  display_name = profile.display_name;
  avatar_url = profile.avatar_url;
  online = profile.online;
  owned_games = map game_entry (shown_games current_user user_id profile);
  owned_items =
      map (λ (i : OwnedItem). record { item_id = i.item_id; game_id = i.game_id })
        profile.owned_items;
  top_posts =
      map
        (λ (p : TopPost). record {
          post_id = p.post_id;
          feedback_score = p.feedback_score;
          rank = p.rank;
        })
        profile.top_posts;
}

module _ {Token : Type 0} (jwt : Jwt Token) (s : Settings) where
  unfoldable pub get_profile_route : ℕ → Option Token → (user_id : String) → Exec (Content Token)
  unfolding profile_page
  get_profile_route now bearer user_id = do
    current_user ← lift (get_optional_user jwt s now bearer)
    profile ← get_profile now user_id
    pure (Content.profile (profile_page (id_of current_user) user_id profile))

  module _ (fw : Framework) where
    unfoldable pub set_avatar_route :
        ℕ → Option Token → (avatar_url : String) → Exec (Content Token)
    unfolding is_within
    set_avatar_route now bearer avatar_url = do
      user ← lift (get_current_user jwt s fw now bearer)
      if is_within 0 512 avatar_url
          then (do store_avatar now user.user_id avatar_url; pure Content.nothing)
          else raise fw.invalid_request

    -- `hide_game`, and `unhide_game` where `hidden` is false.
    unfoldable pub hide_game_route :
        (hidden : Bool) → ℕ → Option Token → (game_id : String) → Exec (Content Token)
    hide_game_route hidden now bearer game_id = do
      user ← lift (get_current_user jwt s fw now bearer)
      hide_owned_game user.user_id game_id hidden
      pure Content.nothing
