-- ===== src/ReadModel/Library.antt =====
-- library_projector.py: what a grant, and a redelivered one, does to the read-model.
use auth_profile_service.Common.{
  ℕ, ◌≤◌, String, ◌≡◌, ◌≢◌, refl, Bool, false, none, some, List, [], ◌∷◌, ◌++◌, arith, ap, sym, ◌∙◌,
  eq_refl, if◌then◌else◌, is_empty, select, select-append, length, Option-cases, inl, inr,
}
use auth_profile_service.Json.{Json, Fields}
use auth_profile_service.Auth.Errors.{ok}
use auth_profile_service.Profile.{OwnedGame}
use auth_profile_service.Database.Tables.{find, find-append, scalar_one_or_none}
use auth_profile_service.Database.World.{ProfileRow, OwnedGameRow, World, Draw, ◌>>=◌}
use auth_profile_service.Database.Profiles.{
  find_profile, insert_if_missing, create_if_missing, get_by_user_id, owns_game, add_owned_game,
  check_profile, append_game, is_game,
}
use auth_profile_service.ReadModel.{grant_game, project_ownership_granted, owner_of, game_of}

-- The rows of a game that an account owns.
abbrev pub owned : String → String → World → List OwnedGameRow
owned user_id game_id w = select (is_game user_id game_id) w.owned_games

pub find_profile-insert :
    (now : ℕ) (user_id name : String) (t : List ProfileRow)
    → find_profile user_id (insert_if_missing now user_id name t) ≢ none
unfolding insert_if_missing find
find_profile-insert now user_id name t = ground (
  arith,
  find-append (λ (r : ProfileRow). r.user_id) user_id t
      (record {
        user_id = user_id;
        display_name = name;
        avatar_url = "";
        online = false;
        updated_at = now;
      }
        ∷ []),
  eq_refl user_id,
)

insert_twice :
    (now : ℕ) (user_id name : String) (t : List ProfileRow)
    → find_profile user_id t ≢ none
    → insert_if_missing now user_id name t ≡ t
unfolding insert_if_missing
insert_twice now user_id name t h = ground arith

-- The game that a grant adds.
abbrev granted_row : Draw → (user_id game_id : String) → OwnedGameRow
granted_row d user_id game_id = record {
  id = d.uuid 0;
  user_id = user_id;
  game_id = game_id;
  hidden = false;
  acquired_at = d.now;
}

unfoldable pub with_profile_row : ℕ → String → World → World
unfolding insert_if_missing
with_profile_row now user_id w = record w {
  db = record w.db { profiles = insert_if_missing now user_id "" w.profiles };
}

unfoldable pub with_game : OwnedGameRow → World → World
with_game g w = record w { db = record w.db { owned_games = w.owned_games ++ g ∷ [] } }

-- A game is added where its account has a profile.
add_game :
    (g : OwnedGame) (w : World) (p : ProfileRow)
    → find_profile g.user_id w.profiles ≡ some p
    → add_owned_game g w ≡ (
      ok tt,
      with_game
          (record {
            id = g.id;
            user_id = g.user_id;
            game_id = g.game_id;
            hidden = g.hidden;
            acquired_at = g.acquired_at;
          })
          w,
    )
unfolding add_owned_game ◌>>=◌ check_profile append_game with_game
add_game g w p f = rw (f, check_profile)

module _ (d : Draw) (user_id game_id : String) (w : World) where
  -- A game that is not there is added, behind the profile that it belongs to.
  pub grant_new :
      owned user_id game_id w ≡ []
      → grant_game d user_id game_id w
        ≡ (ok tt, with_game (granted_row d user_id game_id) (with_profile_row d.now user_id w))
  unfolding grant_game ◌>>=◌ create_if_missing get_by_user_id owns_game with_profile_row
      scalar_one_or_none find
  grant_new e =
      elim (Option-cases (find_profile user_id (insert_if_missing d.now user_id "" w.profiles))) [
        | inl n ↦ elim (find_profile-insert d.now user_id "" w.profiles n) [ ]
        | inr (p, f) ↦ simp e (
            add_game
              (record {
                id = d.uuid 0;
                user_id = user_id;
                game_id = game_id;
                hidden = false;
                acquired_at = d.now;
              })
              (with_profile_row d.now user_id w) p f)
      ]

  -- A game that is there once is not added again.
  pub grant_known :
      (g : OwnedGameRow)
      → owned user_id game_id w ≡ g ∷ []
      → grant_game d user_id game_id w ≡ (ok tt, with_profile_row d.now user_id w)
  unfolding grant_game ◌>>=◌ create_if_missing get_by_user_id owns_game with_profile_row
      scalar_one_or_none find
  grant_known g e = simp e

select_one :
    (p : OwnedGameRow → Bool) (g : OwnedGameRow) → select p (g ∷ []) ≡ (if p g then g ∷ [] else [])
unfolding select
select_one p g = refl

owned-with_game :
    (g : OwnedGameRow) (user_id game_id : String) (w : World)
    → owned user_id game_id (with_game g w)
      ≡ owned user_id game_id w ++ (if is_game user_id game_id g then g ∷ [] else [])
unfolding with_game
owned-with_game g user_id game_id w = rw (
  select-append (is_game user_id game_id) w.owned_games (g ∷ []),
  select_one (is_game user_id game_id) g,
)

module _ (printed : Json → String) (payload : Fields) where
  abbrev owner : String
  owner = owner_of printed payload

  abbrev game : String
  game = game_of printed payload

  -- The payload names an owner and a game.
  abbrev pub IsNamed : Type 0
  IsNamed = (is_empty owner ≡ false) × (is_empty game ≡ false)

  granted_lem :
      (d : Draw) → IsNamed → project_ownership_granted printed d payload ≡ grant_game d owner game
  unfolding project_ownership_granted
  granted_lem d h = rw (h.0, h.1)

  -- A second grant finds the profile and the game.
  regrant :
      (d d' : Draw) (w : World) (g : OwnedGameRow) (w' : World)
      → w'.profiles ≡ insert_if_missing d.now owner "" w.profiles
      → owned owner game w' ≡ g ∷ []
      → grant_game d' owner game w' ≡ (ok tt, w')
  unfolding with_profile_row
  regrant d d' w g w' p e =
      grant_known d' owner game w' g e
      ∙ ap (λ t. (ok tt, record w' { db = record w'.db { profiles = t } }))
          (rw p (
              insert_twice d'.now owner "" (insert_if_missing d.now owner "" w.profiles)
                (find_profile-insert d.now owner "" w.profiles))
            ∙ sym p)

  owned_once :
      (d : Draw) (w : World)
      → owned owner game w ≡ []
      → owned owner game (with_game (granted_row d owner game) (with_profile_row d.now owner w))
        ≡ granted_row d owner game ∷ []
  unfolding with_profile_row
  owned_once d w e = rw (
    owned-with_game (granted_row d owner game) owner game (with_profile_row d.now owner w),
    e,
    eq_refl owner,
    eq_refl game,
  )

  -- What the two deliveries leave, for the rows that are there before.
  twice :
      (d d' : Draw) (w : World) (before : List OwnedGameRow)
      → owned owner game w ≡ before
      → length before ≤ 1
      → let (r, w') = grant_game d owner game w in
        (r ≡ ok tt)
        × (length (owned owner game w') ≡ 1)
        × (grant_game d' owner game w' ≡ (ok tt, w'))
  twice d d' w [] e few =
      let w' = with_game (granted_row d owner game) (with_profile_row d.now owner w) in
      let one = owned_once d w e in
      rw (grant_new d owner game w e) (
        (
          refl,
          ap length one,
          regrant d d' w (granted_row d owner game) w' (unfold with_game with_profile_row in refl)
              one,
        ))
  twice d d' w (g ∷ []) e few =
      let w' = with_profile_row d.now owner w in
      let kept : owned owner game w' ≡ g ∷ [] = unfold with_profile_row in e in
      rw (grant_known d owner game w g e)
        ((refl, ap length kept, regrant d d' w g w' (unfold with_profile_row in refl) kept))
  twice d d' w (g ∷ x ∷ rest) e few = ground arith

  -- Where the payload names an owner and a game, and the account has the game at most once: a grant
  -- succeeds, the account then has it once, and a redelivery of the grant, with any draws, succeeds
  -- and changes nothing.
  pub grant_twice :
      (d d' : Draw) (w : World)
      → IsNamed
      → length (owned owner game w) ≤ 1
      → let (r, w') = project_ownership_granted printed d payload w in
        (r ≡ ok tt)
        × (length (owned owner game w') ≡ 1)
        × (project_ownership_granted printed d' payload w' ≡ (ok tt, w'))
  grant_twice d d' w h few =
      rw (granted_lem d h, granted_lem d' h) (twice d d' w (owned owner game w) refl few)
