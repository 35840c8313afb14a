-- ===== src/ReadModel/Revocation.antt =====
-- library_projector.py: what a revocation, and a redelivered one, does to the read-model.
use auth_profile_service.Common.{
  String, ◌≡◌, refl, Bool, true, false, ◌&&◌, List, [], ◌∷◌, arith, ap, ◌==◌, eq_iff, select,
  Bool-cases, inl, inr, ◌⊎◌,
}
use auth_profile_service.Json.{Json, Fields}
use auth_profile_service.Auth.Errors.{Result, ok}
use auth_profile_service.Database.Tables.{remove}
use auth_profile_service.Database.World.{OwnedGameRow, World}
use auth_profile_service.Database.Profiles.{remove_owned_game, is_game}
use auth_profile_service.ReadModel.{project_ownership_revoked, owner_of, game_of}
use auth_profile_service.ReadModel.Library.{owned, IsNamed}

select-remove :
    (p q : OwnedGameRow → Bool) (t : List OwnedGameRow)
    → ((g : OwnedGameRow) → q g ≡ true → p g ≡ true)
    → select q (remove (λ (g : OwnedGameRow). g.id) p t) ≡ []
unfolding select remove
select-remove p q [] h = refl
select-remove p q (g ∷ t) h = ground (arith, select-remove p q t h, h g)

select_kept :
    (p q : OwnedGameRow → Bool) (t : List OwnedGameRow)
    → ((g : OwnedGameRow) → q g ≡ true → p g ≡ false)
    → select q (remove (λ (g : OwnedGameRow). g.id) p t) ≡ select q t
unfolding select remove
select_kept p q [] h = refl
select_kept p q (g ∷ t) h = ground (arith, select_kept p q t h, h g)

remove_twice :
    (p : OwnedGameRow → Bool) (t : List OwnedGameRow)
    → let t' = remove (λ (g : OwnedGameRow). g.id) p t in
      remove (λ (g : OwnedGameRow). g.id) p t' ≡ t'
unfolding remove
remove_twice p [] = refl
remove_twice p (g ∷ t) = ground (arith, remove_twice p t)

-- Two games of two accounts are the same, or no row is of both.
other_game :
    (u g v k : String)
    → ((u ≡ v) × (g ≡ k)) ⊎ ((x : OwnedGameRow) → is_game u g x ≡ true → is_game v k x ≡ false)
other_game u g v k = elim (Bool-cases (u == v && g == k)) [
  | inl e ↦ inl (ground (arith, eq_iff u v, eq_iff g k))
  | inr e ↦ inr (λ x h. ground (
    arith,
    eq_iff u v,
    eq_iff g k,
    eq_iff x.user_id u,
    eq_iff x.user_id v,
    eq_iff x.game_id g,
    eq_iff x.game_id k,
  ))
]

module _ (printed : Json → String) (payload : Fields) where
  abbrev owner : String
  owner = owner_of printed payload

  abbrev game : String
  game = game_of printed payload

  -- A revocation succeeds where the payload names an owner and a game, and leaves no row of that
  -- game for that account; the rows of every other account and game stay, and a redelivery changes
  -- nothing.
  pub revoke_lem :
      (w : World) (user_id game_id : String)
      → IsNamed printed payload
      → let (r, w') = project_ownership_revoked printed payload w in
        (r ≡ ok tt)
        × (owned owner game w' ≡ [])
        × ((user_id ≡ owner) × (game_id ≡ game)
            ⊎ (owned user_id game_id w' ≡ owned user_id game_id w))
        × (project_ownership_revoked printed payload w' ≡ (ok tt, w'))
  unfolding project_ownership_revoked remove_owned_game
  revoke_lem w user_id game_id h =
      rw (h.0, h.1)
        ((
          refl,
          select-remove (is_game owner game) (is_game owner game) w.owned_games (λ g e. e),
          elim (other_game user_id game_id owner game) [
            | inl same ↦ inl same
            | inr other ↦
                inr (select_kept (is_game owner game) (is_game user_id game_id) w.owned_games other)
          ],
          ap
              (λ t.
                let after : Result (Unit {0}) × World =
                  (ok tt, record w { db = record w.db { owned_games = t } }) in
                after)
              (remove_twice (is_game owner game) w.owned_games),
        ))
