-- ===== src/Database/TopPosts.antt =====
-- `upsert_top_post` of app/infrastructure/db/repositories/profile_repository.py.
use auth_profile_service.Common.{
  ℕ, suc, String, Bool, ◌&&◌, Option, none, some, List, [], ◌∷◌, ◌++◌, ◌==◌, if◌then◌else◌, select,
  leb,
}
use auth_profile_service.Json.Int.{leb_ℤ}
use auth_profile_service.Auth.Errors.{ok}
use auth_profile_service.Profile.{TopPost}
use auth_profile_service.Database.Tables.{put, remove, scalar_one_or_none}
use auth_profile_service.Database.World.{TopPostRow, Exec, ◌>>=◌, ◌>>◌}
use auth_profile_service.Database.Profiles.{check_profile}

abbrev is_post : String → String → TopPostRow → Bool
is_post user_id post_id p = p.user_id == user_id && p.post_id == post_id

-- `order_by(feedback_score.desc())`: equal scores stay in the order of the table.
unfoldable pub insert_by_score : TopPostRow → List TopPostRow → List TopPostRow
insert_by_score p [] = p ∷ []
insert_by_score p (q ∷ qs) =
    if leb_ℤ q.feedback_score p.feedback_score then p ∷ q ∷ qs else q ∷ insert_by_score p qs

unfoldable pub order_by_score : List TopPostRow → List TopPostRow
unfolding insert_by_score
order_by_score [] = []
order_by_score (p ∷ ps) = insert_by_score p (order_by_score ps)

-- The table with other posts.
unfoldable pub with_posts : (List TopPostRow → List TopPostRow) → Exec (Unit {0})
with_posts f w = (ok tt, record w { db = record w.db { top_posts = f w.top_posts } })

-- The first commit: the row that is there gets the new score, or a row is added.
unfoldable pub write_score : TopPost → Option TopPostRow → Exec (Unit {0})
unfolding with_posts
write_score post (some row) =
    with_posts (put (λ p. p.id) (record row { feedback_score = post.feedback_score }))
write_score post none = do
  check_profile post.user_id
  with_posts (λ t.
      t
      ++ record {
        id = post.id;
        user_id = post.user_id;
        post_id = post.post_id;
        feedback_score = post.feedback_score;
        rank = 0;
      }
        ∷ [])

-- The loop of the second commit: the first five get their ranks, the others are deleted.
unfoldable pub rank_rows : ℕ → List TopPostRow → List TopPostRow → List TopPostRow
rank_rows idx [] t = t
rank_rows idx (row ∷ rest) t = rank_rows (suc idx) rest (
    if leb idx 5
    then put (λ p. p.id) (record row { rank = idx }) t
    else remove (λ (p : TopPostRow). p.id) (λ p. p.id == row.id) t)

unfoldable pub upsert_top_post : TopPost → Exec (Unit {0})
unfolding write_score order_by_score rank_rows with_posts
upsert_top_post post = do
  existing ← λ w. (scalar_one_or_none (select (is_post post.user_id post.post_id) w.top_posts), w)
  write_score post existing
  with_posts (λ t.
      rank_rows 1 (order_by_score (select (λ (p : TopPostRow). p.user_id == post.user_id) t)) t)
