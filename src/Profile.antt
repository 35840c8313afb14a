-- ===== src/Profile.antt =====
-- app/domain/profile: the profile and what it holds. The proofs are in the modules below.
pub mod TopPosts
use auth_profile_service.Common.{
  ℕ, zero, suc, String, Bool, true, false, not, List, [], ◌∷◌, ◌++◌, ◌==◌, if◌then◌else◌, select,
  take, strip,
}
use auth_profile_service.Json.Int.{ℤ, leb_ℤ}

pub record OwnedGame : Type 0 where
  pub id : String
  pub user_id : String
  pub game_id : String
  pub hidden : Bool
  pub acquired_at : ℕ

pub record OwnedItem : Type 0 where
  pub id : String
  pub user_id : String
  pub item_id : String
  pub game_id : String
  pub acquired_at : ℕ

pub record TopPost : Type 0 where
  pub id : String
  pub user_id : String
  pub post_id : String
  pub feedback_score : ℤ
  pub rank : ℕ

pub record Profile : Type 0 where
  pub user_id : String
  pub display_name : String
  pub avatar_url : String
  pub online : Bool
  pub owned_games : List OwnedGame
  pub owned_items : List OwnedItem
  pub top_posts : List TopPost
  pub updated_at : ℕ

abbrev pub max_top_posts : ℕ
max_top_posts = 5

unfoldable pub visible_games : Profile → List OwnedGame
visible_games p = select (λ (g : OwnedGame). not g.hidden) p.owned_games

-- The loops of `hide_game` and `unhide_game`: the first game with the id is marked.
unfoldable pub mark_hidden : Bool → String → List OwnedGame → List OwnedGame
mark_hidden b game_id [] = []
mark_hidden b game_id (g ∷ gs) =
    if g.game_id == game_id then record g { hidden = b } ∷ gs else g ∷ mark_hidden b game_id gs

unfoldable pub hide_game : String → Profile → Profile
unfolding mark_hidden
hide_game game_id p = record p { owned_games = mark_hidden true game_id p.owned_games }

unfoldable pub unhide_game : String → Profile → Profile
unfolding mark_hidden
unhide_game game_id p = record p { owned_games = mark_hidden false game_id p.owned_games }

unfoldable pub add_owned_game : OwnedGame → Profile → Profile
add_owned_game g p = record p { owned_games = p.owned_games ++ g ∷ [] }

unfoldable pub add_owned_item : OwnedItem → Profile → Profile
add_owned_item i p = record p { owned_items = p.owned_items ++ i ∷ [] }

unfoldable pub set_presence : Bool → Profile → Profile
set_presence online p = record p { online = online }

unfoldable pub set_avatar : String → Profile → Profile
set_avatar avatar_url p = record p { avatar_url = strip avatar_url }

-- `sort(key=feedback_score, reverse=True)`, which keeps equal scores in their order: a new post goes
-- behind every post whose score is not below its own.
unfoldable pub insert_sorted : TopPost → List TopPost → List TopPost
insert_sorted p [] = p ∷ []
insert_sorted p (q ∷ qs) =
    if leb_ℤ p.feedback_score q.feedback_score then q ∷ insert_sorted p qs else p ∷ q ∷ qs

unfoldable pub sort_from : List TopPost → List TopPost → List TopPost
unfolding insert_sorted
sort_from sorted [] = sorted
sort_from sorted (p ∷ ps) = sort_from (insert_sorted p sorted) ps

unfoldable pub sort_by_score : List TopPost → List TopPost
unfolding sort_from
sort_by_score ps = sort_from [] ps

-- `for i, p in enumerate(posts, start=i): p.rank = i`
unfoldable pub rank_from : ℕ → List TopPost → List TopPost
rank_from i [] = []
rank_from i (p ∷ ps) = record p { rank = i } ∷ rank_from (suc i) ps

unfoldable pub upsert_top_posts : TopPost → Profile → Profile
unfolding sort_by_score rank_from
upsert_top_posts candidate p = record p {
  top_posts = rank_from 1 (
      take max_top_posts (
        sort_by_score (
          select (λ (q : TopPost). not (q.post_id == candidate.post_id)) p.top_posts
          ++ candidate ∷ [])));
}
