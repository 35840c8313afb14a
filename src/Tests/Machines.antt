-- ===== src/Tests/Machines.antt =====
-- Uses of the theorems on the account's state machine and on the domain's objects.
use mathlib.Core.List.{Perm}
use auth_profile_service.Common.{select}
use auth_profile_service.Common.{take}
use auth_profile_service.Auth.Enums.{state_value}
use auth_profile_service.Common.{ℕ, ◌≤◌, String, ◌≡◌, false, some, List, [], ◌∷◌, ◌++◌}
use auth_profile_service.Auth.Enums.{Role, UserState}
use auth_profile_service.Auth.User.{User, new_account}
use auth_profile_service.Auth.User.Machine.{Call, call, run, Trace, run-Trace}
use auth_profile_service.Auth.User.Replay.{replay, replay-run}
use auth_profile_service.Database.Users.{to_domain_user}
use auth_profile_service.Json.Int.{ℤ}
use auth_profile_service.Profile.{TopPost, Profile, rank_from, upsert_top_posts}
use auth_profile_service.Profile.TopPosts.{
  IsSorted, IsRankedFrom, count_post, others, upsert_top_posts_lem,
}
use auth_profile_service.Tests.{ali}

abbrev user_in : UserState → User
user_in s = record (to_domain_user ali) { state = s }

abbrev troubles : List Call
troubles = Call.approve "sam" ∷ Call.ban_for "sam" "spam" ∷ Call.set_role Role.support "root" ∷ []

run-Trace_example :
    Trace troubles UserState.pending (run troubles (user_in UserState.pending)).state
run-Trace_example = run-Trace troubles (user_in UserState.pending)

replay-run_example :
    let u = run troubles (new_account Role.basic_user "n0" 5 "N@a.com" "h" "Nia") in
    replay u.pending_events ≡ some ("SUPPORT", "BANNED")
unfolding run call state_value new_account
replay-run_example = replay-run Role.basic_user troubles "n0" 5 "N@a.com" "h" "Nia"

abbrev post : String → ℕ → TopPost
post k score = record {
  id = k;
  user_id = "ali";
  post_id = k;
  feedback_score = ℤ.pos score;
  rank = 0;
}

abbrev shelf : Profile
shelf = record {
  user_id = "ali";
  display_name = "Ali";
  avatar_url = "";
  online = false;
  owned_games = [];
  owned_items = [];
  top_posts = post "a" 9 ∷ post "b" 7 ∷ post "c" 5 ∷ post "d" 3 ∷ post "e" 1 ∷ [];
  updated_at = 0;
}

upsert_top_posts_lem_example :
    let posts = (upsert_top_posts (post "f" 6) shelf).top_posts in
    (5 ≤ 5)
    × IsSorted posts
    × IsRankedFrom 1 posts
    × (count_post "f" posts ≤ 1)
    × ((all : List TopPost) × Perm all (others "f" shelf.top_posts ++ post "f" 6 ∷ [])
        × IsSorted all
        × (posts ≡ rank_from 1 (take 5 all)))
unfolding upsert_top_posts take select
upsert_top_posts_lem_example = upsert_top_posts_lem (post "f" 6) shelf "f"
