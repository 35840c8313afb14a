-- ===== src/ReadModel/Visibility.antt =====
-- app/presentation/rest/profile_controller.py: which games a profile page shows to whom.
use auth_profile_service.Common.{
  String, ◌≡◌, ◌≢◌, refl, Bool, true, false, not, Option, none, some, List, [], ◌∷◌, arith, ◌==◌,
  eq_iff, select, All, Has, inl, inr, Bool-cases, ap, ◌∙◌,
}
use auth_profile_service.Profile.{Profile, OwnedGame, visible_games}
use auth_profile_service.ReadModel.{shown_games}

Has-select :
    (p : OwnedGame → Bool) (g : OwnedGame) (gs : List OwnedGame)
    → p g ≡ true
    → Has g gs
    → Has g (select p gs)
unfolding select
Has-select p g [] h k = k
Has-select p g (x ∷ gs) h (inl e) = rw (ap p e ∙ h) (inl e)
Has-select p g (x ∷ gs) h (inr k) = ground (arith, Has-select p g gs h k)

pub unhidden :
    (gs : List OwnedGame)
    → All (λ (g : OwnedGame). g.hidden ≡ false) (select (λ (g : OwnedGame). not g.hidden) gs)
unfolding select
unhidden [] = tt
unhidden (g ∷ gs) = ground (arith, unhidden gs)

other_caller : (caller user_id : String) → (caller == user_id) ≡ false → some caller ≢ some user_id
other_caller caller user_id e = λ k. ground (arith, eq_iff caller user_id)

-- The owner of a profile is shown all of its games; any other caller, or nobody, is shown none that
-- is hidden and every one that is not.
pub shown_games_lem :
    (caller : Option String) (user_id : String) (p : Profile) (g : OwnedGame)
    → (caller ≡ some user_id → shown_games caller user_id p ≡ p.owned_games)
      × (caller ≢ some user_id
          → All (λ (g : OwnedGame). g.hidden ≡ false) (shown_games caller user_id p)
            × (Has g p.owned_games → g.hidden ≡ false → Has g (shown_games caller user_id p)))
unfolding shown_games visible_games
shown_games_lem none user_id p g = (
  λ e. cc,
  λ ne. (
    unhidden p.owned_games,
    λ k h. Has-select (λ (g : OwnedGame). not g.hidden) g p.owned_games (rw h) k,
  ),
)
shown_games_lem (some caller) user_id p g = elim (Bool-cases (caller == user_id)) [
  | inl e ↦ rw (e) ((λ k. refl, λ ne. elim (ne (ground (arith, eq_iff caller user_id))) [ ]))
  | inr e ↦ rw (e) (
      (
        λ k. elim (other_caller caller user_id e k) [ ],
        λ ne. (
          unhidden p.owned_games,
          λ k h. Has-select (λ (g : OwnedGame). not g.hidden) g p.owned_games (rw h) k,
        ),
      ))
]
