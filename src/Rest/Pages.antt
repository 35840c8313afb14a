-- ===== src/Rest/Pages.antt =====
-- profile_controller.py: what a profile page shows of the games that its owner hid.
use auth_profile_service.Common.{ℕ, String, ◌≡◌, ◌⊎◌, false, Option, none, some, All}
use auth_profile_service.Json.{Json, Fields, get}
use auth_profile_service.Auth.Errors.{Error, Result, ok, err}
use auth_profile_service.Database.World.{World}
use auth_profile_service.Dto.{Content, ProfileResponse, OwnedGameResponse}
use auth_profile_service.Profile.{Profile}
use auth_profile_service.Rest.Profiles.{profile_page}
use auth_profile_service.Security.Settings.{Settings}
use auth_profile_service.Security.Jwt.{Jwt, decode_access_token}

-- No game on the page is marked as hidden.
abbrev pub ShowsNoHidden : ProfileResponse → Type 0
ShowsNoHidden page = All (λ (g : OwnedGameResponse). g.hidden ≡ false) page.owned_games

abbrev page_result : (Token : Type 0) → ProfileResponse → Result (Content Token)
page_result Token page = ok (Content.profile page)

module _ {Token : Type 0} (jwt : Jwt Token) (s : Settings) where
  -- The bearer of a request is an access token of the user.
  abbrev pub IsTokenOf : ℕ → Option Token → String → Type 0
  IsTokenOf now bearer user_id =
      (token : Token) × (claims : Fields) × (bearer ≡ some token)
      × (decode_access_token jwt s now token ≡ ok claims)
      × (get "sub" claims ≡ some (Json.str user_id))

  -- The bearer of a request is missing, or does not decode.
  abbrev pub IsVisitor : ℕ → Option Token → Type 0
  IsVisitor now bearer =
      (bearer ≡ none)
      ⊎ ((token : Token) × (e : Error) × (bearer ≡ some token)
          × (decode_access_token jwt s now token ≡ err e))

  -- What a profile is to a visitor.
  abbrev pub visitor_page : (user_id : String) → Result Profile → Result (Content Token)
  visitor_page user_id (ok profile) = ok (Content.profile (profile_page none user_id profile))
  visitor_page user_id (err e) = err e
