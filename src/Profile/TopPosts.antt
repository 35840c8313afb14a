-- ===== src/Profile/TopPosts.antt =====
-- `upsert_top_posts` of profile.py: at most five posts, the best first, ranked from one.
use mathlib.Core.Path.{subst}
use mathlib.Core.List.{Perm, perm_middle}
use mathlib.Core.List.Perm
use auth_profile_service.Common.{
  Bool-cases, inl, inr, ℕ, zero, suc, ◌+◌, ◌≤◌, String, ◌≡◌, refl, not, List, [], ◌∷◌, ◌++◌, arith,
  length, length-take-le, if◌then◌else◌, take, select, ◌==◌, eq_iff,
}
use auth_profile_service.Json.Int.{ℤ, ◌≤ℤ◌, leb_ℤ}
use auth_profile_service.Profile.{
  TopPost, Profile, insert_sorted, sort_from, sort_by_score, rank_from, upsert_top_posts,
}

-- No post has a better score than the one before it.
abbrev pub IsSortedFrom : ℤ → List TopPost → Type 0
IsSortedFrom bound [] = Unit
IsSortedFrom bound (p ∷ ps) = (p.feedback_score ≤ℤ bound) × IsSortedFrom p.feedback_score ps

abbrev pub IsSorted : List TopPost → Type 0
IsSorted [] = Unit
IsSorted (p ∷ ps) = IsSortedFrom p.feedback_score ps

-- The ranks count up from a number.
abbrev pub IsRankedFrom : ℕ → List TopPost → Type 0
IsRankedFrom i [] = Unit
IsRankedFrom i (p ∷ ps) = (p.rank ≡ i) × IsRankedFrom (suc i) ps

insert-IsSortedFrom :
    (bound : ℤ) (p : TopPost) (ps : List TopPost)
    → p.feedback_score ≤ℤ bound
    → IsSortedFrom bound ps
    → IsSortedFrom bound (insert_sorted p ps)
unfolding insert_sorted
insert-IsSortedFrom bound p [] h k = (h, tt)
insert-IsSortedFrom bound p (q ∷ qs) h k = ground (arith, insert-IsSortedFrom q.feedback_score p qs)

insert-IsSorted : (p : TopPost) (ps : List TopPost) → IsSorted ps → IsSorted (insert_sorted p ps)
unfolding insert_sorted
insert-IsSorted p [] h = tt
insert-IsSorted p (q ∷ qs) h = ground (arith, insert-IsSortedFrom q.feedback_score p qs)

sort_from-IsSorted : (sorted ps : List TopPost) → IsSorted sorted → IsSorted (sort_from sorted ps)
unfolding sort_from
sort_from-IsSorted sorted [] h = h
sort_from-IsSorted sorted (p ∷ ps) h =
    sort_from-IsSorted (insert_sorted p sorted) ps (insert-IsSorted p sorted h)

take-IsSortedFrom :
    (bound : ℤ) (n : ℕ) (ps : List TopPost) → IsSortedFrom bound ps → IsSortedFrom bound (take n ps)
unfolding take
take-IsSortedFrom bound zero ps h = tt
take-IsSortedFrom bound (suc n) [] h = tt
take-IsSortedFrom bound (suc n) (p ∷ ps) h = (h.0, take-IsSortedFrom p.feedback_score n ps h.1)

take-IsSorted : (n : ℕ) (ps : List TopPost) → IsSorted ps → IsSorted (take n ps)
unfolding take
take-IsSorted zero ps h = tt
take-IsSorted (suc n) [] h = tt
take-IsSorted (suc n) (p ∷ ps) h = take-IsSortedFrom p.feedback_score n ps h

rank-IsSortedFrom :
    (bound : ℤ) (i : ℕ) (ps : List TopPost)
    → IsSortedFrom bound ps
    → IsSortedFrom bound (rank_from i ps)
unfolding rank_from
rank-IsSortedFrom bound i [] h = tt
rank-IsSortedFrom bound i (p ∷ ps) h = (h.0, rank-IsSortedFrom p.feedback_score (suc i) ps h.1)

rank-IsSorted : (i : ℕ) (ps : List TopPost) → IsSorted ps → IsSorted (rank_from i ps)
unfolding rank_from
rank-IsSorted i [] h = tt
rank-IsSorted i (p ∷ ps) h = rank-IsSortedFrom p.feedback_score (suc i) ps h

rank-IsRankedFrom : (i : ℕ) (ps : List TopPost) → IsRankedFrom i (rank_from i ps)
unfolding rank_from
rank-IsRankedFrom i [] = tt
rank-IsRankedFrom i (p ∷ ps) = (refl, rank-IsRankedFrom (suc i) ps)

length-rank_from : (i : ℕ) (ps : List TopPost) → length (rank_from i ps) ≡ length ps
unfolding rank_from
length-rank_from i [] = refl
length-rank_from i (p ∷ ps) = rw (length-rank_from (suc i) ps)

-- How often a post id stands in a list.
abbrev pub count_post : String → List TopPost → ℕ
count_post k [] = 0
count_post k (p ∷ ps) = (if p.post_id == k then 1 else 0) + count_post k ps

count-insert :
    (k : String) (p : TopPost) (ps : List TopPost)
    → count_post k (insert_sorted p ps) ≡ count_post k (p ∷ ps)
unfolding insert_sorted
count-insert k p [] = refl
count-insert k p (q ∷ qs) = ground (arith, count-insert k p qs)

count-sort_from :
    (k : String) (sorted ps : List TopPost)
    → count_post k (sort_from sorted ps) ≡ count_post k sorted + count_post k ps
unfolding sort_from
count-sort_from k sorted [] = omega arith
count-sort_from k sorted (p ∷ ps) =
    omega (arith, count-sort_from k (insert_sorted p sorted) ps, count-insert k p sorted)

count-take : (k : String) (n : ℕ) (ps : List TopPost) → count_post k (take n ps) ≤ count_post k ps
unfolding take
count-take k zero ps = omega arith
count-take k (suc n) [] = omega arith
count-take k (suc n) (p ∷ ps) = omega (arith, count-take k n ps)

count-rank_from :
    (k : String) (i : ℕ) (ps : List TopPost) → count_post k (rank_from i ps) ≡ count_post k ps
unfolding rank_from
count-rank_from k i [] = refl
count-rank_from k i (p ∷ ps) = omega (arith, count-rank_from k (suc i) ps)

count-append :
    (k : String) (ps qs : List TopPost)
    → count_post k (ps ++ qs) ≡ count_post k ps + count_post k qs
count-append k [] qs = omega arith
count-append k (p ∷ ps) qs = omega (arith, count-append k ps qs)

-- The posts under other ids.
abbrev pub others : String → List TopPost → List TopPost
others c ps = select (λ (q : TopPost). not (q.post_id == c)) ps

count-others :
    (k c : String) (ps : List TopPost)
    → count_post k (others c ps) ≡ (if c == k then 0 else count_post k ps)
unfolding select
count-others k c [] = ground arith
count-others k c (p ∷ ps) =
    ground (arith, count-others k c ps, eq_iff p.post_id c, eq_iff p.post_id k, eq_iff c k)

insert-perm : (p : TopPost) (ps : List TopPost) → Perm (insert_sorted p ps) (p ∷ ps)
unfolding insert_sorted
insert-perm p [] = Perm.rfl
insert-perm p (q ∷ qs) = elim (Bool-cases (leb_ℤ p.feedback_score q.feedback_score)) [
  | inl e ↦ rw e (Perm.trans (Perm.cons q (insert-perm p qs)) (Perm.swap p q qs))
  | inr e ↦ rw e Perm.rfl
]

sort_from-perm : (sorted ps : List TopPost) → Perm (sort_from sorted ps) (ps ++ sorted)
unfolding sort_from
sort_from-perm sorted [] = Perm.rfl
sort_from-perm sorted (p ∷ ps) =
    Perm.trans (sort_from-perm (insert_sorted p sorted) ps)
      (Perm.trans (Perm.append_left ps (insert-perm p sorted)) (perm_middle ps sorted))

append_nil : (ps : List TopPost) → ps ++ [] ≡ ps
append_nil [] = refl
append_nil (p ∷ ps) = rw (append_nil ps)

-- Whatever the list was before, after `upsert_top_posts` it is the best five of the posts under other
-- ids and the candidate: these in the order of their scores from the best down, cut to five and ranked
-- 1, 2, …. So it has at most five posts, in the order of their scores; the candidate's post stands in
-- it at most once, and any other post at most as often as before.
pub upsert_top_posts_lem :
    (candidate : TopPost) (p : Profile) (k : String)
    → let posts = (upsert_top_posts candidate p).top_posts in
      (length posts ≤ 5)
      × IsSorted posts
      × IsRankedFrom 1 posts
      × (count_post k posts ≤ (if candidate.post_id == k then 1 else count_post k p.top_posts))
      × ((all : List TopPost) × Perm all (others candidate.post_id p.top_posts ++ candidate ∷ [])
          × IsSorted all
          × (posts ≡ rank_from 1 (take 5 all)))
unfolding upsert_top_posts sort_by_score
upsert_top_posts_lem candidate p k =
    let kept = others candidate.post_id p.top_posts ++ candidate ∷ [] in
    let best = take 5 (sort_by_score kept) in
    (
      omega (arith, length-rank_from 1 best, length-take-le 5 (sort_by_score kept)),
      rank-IsSorted 1 best (take-IsSorted 5 (sort_by_score kept) (sort_from-IsSorted [] kept tt)),
      rank-IsRankedFrom 1 best,
      ground (
        arith,
        count-rank_from k 1 best,
        count-take k 5 (sort_by_score kept),
        count-sort_from k [] kept,
        count-append k (others candidate.post_id p.top_posts) (candidate ∷ []),
        count-others k candidate.post_id p.top_posts,
      ),
      (
        sort_by_score kept,
        subst (Perm (sort_by_score kept)) (append_nil kept) (sort_from-perm [] kept),
        sort_from-IsSorted [] kept tt,
        refl,
      ),
    )
