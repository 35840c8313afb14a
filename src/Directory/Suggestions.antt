-- ===== src/Directory/Suggestions.antt =====
-- suggest_recipients.py: what the gift box offers while somebody types.
use Prim.Native.Char.{Char}
use Prim.Native.String.{◌++◌, count}
use mathlib.Core.Path.{fun_ext}
use auth_profile_service.Common.{
  ◌≤◌, String, ◌≡◌, refl, ap, ◌∙◌, Bool, not, ◌&&◌, ◌||◌, List, [], ◌∷◌, map, arith, ◌==◌,
  if◌then◌else◌, ltb, length, length-take-le, length-map, select, take, strip, strip_idempotent,
  is_empty, has_prefix, has_part, Bool-cases, inl, inr,
}
use auth_profile_service.Auth.Enums.{UserState, state_eq}
use auth_profile_service.Auth.Errors.{ok}
use auth_profile_service.Database.World.{UserRow, World, ◌>>=◌}
use auth_profile_service.Database.Users.{to_domain_user}
use auth_profile_service.Database.Search.{
  TextSearch, like_fragment, is_hit, in_order, search_active,
}
use auth_profile_service.Database.Search.Like.{
  Item, letters, items, matches, fold_text, fold-letters, LikeLaws, escape, like_fragment-eq-escape,
  items-escape, items-word, matches-letters, matches_within,
}
use auth_profile_service.Directory.{suggest_recipients}

-- An account that is offered for a text: ACTIVE, not the caller, and with an email, a display name
-- or a later word of the display name that starts with the text, up to the case of the locale.
unfoldable pub is_offered :
    (fold : Char → String) → (needle exclude_user_id : String) → UserRow → Bool
is_offered fold needle exclude_user_id r =
    let typed = fold_text fold needle in
    let later = fold_text fold (String.◌∷◌ " " needle) in
    let display_name = fold_text fold r.display_name in
    state_eq r.state UserState.active
    && ((has_prefix typed (fold_text fold r.email)
          || (has_prefix typed display_name || has_part later display_name))
        && (is_empty exclude_user_id || not (r.id == exclude_user_id)))

module _ (server : TextSearch) (fold : Char → String) (laws : LikeLaws server fold) where
  ilike_prefix :
      (needle text : String)
      → server.ilike text (like_fragment needle ++ "%")
        ≡ has_prefix (fold_text fold needle) (fold_text fold text)
  ilike_prefix needle text =
      laws.ilike_lem text (like_fragment needle ++ "%") (letters needle (Item.any_text ∷ [])) (
        rw (like_fragment-eq-escape needle)
          (items-escape needle "%" (Item.any_text ∷ []) (unfold items in refl)))
      ∙ ap (λ p. matches p (fold_text fold text)) (fold-letters fold needle (Item.any_text ∷ []))
      ∙ matches-letters (fold_text fold needle) (fold_text fold text)

  ilike_word :
      (needle text : String)
      → server.ilike text ("% " ++ (like_fragment needle ++ "%"))
        ≡ has_part (fold_text fold (String.◌∷◌ " " needle)) (fold_text fold text)
  ilike_word needle text =
      laws.ilike_lem text ("% " ++ (like_fragment needle ++ "%"))
        (Item.any_text ∷ letters (String.◌∷◌ " " needle) (Item.any_text ∷ []))
        (rw (like_fragment-eq-escape needle) (
          items-word (escape needle ++ "%") (letters needle (Item.any_text ∷ []))
            (items-escape needle "%" (Item.any_text ∷ []) (unfold items in refl))))
      ∙ ap (λ p. matches (Item.any_text ∷ p) (fold_text fold text))
          (fold-letters fold (String.◌∷◌ " " needle) (Item.any_text ∷ []))
      ∙ matches_within (fold_text fold (String.◌∷◌ " " needle)) (fold_text fold text)

  is_hit-eq-is_offered :
      (needle exclude_user_id : String) (r : UserRow)
      → is_hit server (like_fragment needle) exclude_user_id r
        ≡ is_offered fold needle exclude_user_id r
  unfolding is_hit is_offered
  is_hit-eq-is_offered needle exclude_user_id r = rw (
    ilike_prefix needle r.email,
    ilike_prefix needle r.display_name,
    ilike_word needle r.display_name,
  )

  search_lem :
      (needle exclude_user_id : String) (w : World)
      → search_active server needle 8 exclude_user_id w ≡ (
        ok (
            map to_domain_user (
              take 8 (
                in_order
                  (λ r s. server.precedes r.display_name s.display_name)
                  (select (is_offered fold (strip needle) exclude_user_id) w.users)))),
        w,
      )
  unfolding search_active
  search_lem needle exclude_user_id w =
      rw (fun_ext (is_hit-eq-is_offered (strip needle) exclude_user_id))

  -- The rows that are offered for what was typed.
  abbrev pub offered : (query exclude_user_id : String) → World → List UserRow
  offered query exclude_user_id w =
      if ltb (count (strip query)) 2
      then []
      else take 8 (
          in_order (λ r s. server.precedes r.display_name s.display_name)
            (select (is_offered fold (strip query) exclude_user_id) w.users))

  length-offered-le :
      (query exclude_user_id : String) (w : World) → length (offered query exclude_user_id w) ≤ 8
  length-offered-le query exclude_user_id w = elim (Bool-cases (ltb (count (strip query)) 2)) [
    | inl e ↦ rw e (omega arith)
    | inr e ↦ rw e (length-take-le 8 _)
  ]

  offered_lem :
      (query exclude_user_id : String) (w : World)
      → suggest_recipients server query exclude_user_id w
        ≡ (ok (map to_domain_user (offered query exclude_user_id w)), w)
  unfolding suggest_recipients ◌>>=◌
  offered_lem query exclude_user_id w = elim (Bool-cases (ltb (count (strip query)) 2)) [
    | inl e ↦ rw e
    | inr e ↦ rw (e, search_lem (strip query) exclude_user_id w, strip_idempotent query)
  ]

  -- With what PostgreSQL documents of ILIKE, in a locale that folds case letter by letter: fewer than
  -- two characters, once stripped, get nobody. Otherwise the answer is the accounts that are offered
  -- for the stripped text up to the case of the locale, in the server's order of display names, and at
  -- most eight of them; `%`, `_` and `!` stand for themselves. Nothing changes.
  pub suggest_recipients_lem :
      (query exclude_user_id : String) (w : World)
      → (suggest_recipients server query exclude_user_id w
          ≡ (ok (map to_domain_user (offered query exclude_user_id w)), w))
        × (length (map to_domain_user (offered query exclude_user_id w)) ≤ 8)
  suggest_recipients_lem query exclude_user_id w = (
    offered_lem query exclude_user_id w,
    rw (length-map to_domain_user (offered query exclude_user_id w))
        (length-offered-le query exclude_user_id w),
  )
