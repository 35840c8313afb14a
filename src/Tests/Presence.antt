-- ===== src/Tests/Presence.antt =====
-- A use of the theorem on the presence socket.
use auth_profile_service.Common.{
  ℕ, String, ◌≡◌, refl, true, some, List, [], ◌∷◌, ◌++◌, if◌then◌else◌, ltb, arith,
}
use auth_profile_service.Auth.Errors.{ok}
use auth_profile_service.Database.Redis.{has_key, presence_key}
use auth_profile_service.Presence.{Arrival, Ending, presence_message, presence_heartbeat}
use auth_profile_service.Presence.Session.{presence_heartbeat_lem}
use auth_profile_service.Security.Settings.{defaults}
use auth_profile_service.Security.Jwt.{
  create_access_token, signed_claims, access_claims, text_claim,
}
use auth_profile_service.Json.{get}
use auth_profile_service.Sessions.Tokens.{access_ttl, access_token_lem}
use auth_profile_service.Tests.{Sealed, sealing, sealing_laws, draw, office}

abbrev token_of_ali : Sealed
token_of_ali = create_access_token sealing defaults (draw "x" 5000) "ali" "BASIC_USER" []

abbrev evening : List Arrival
evening =
    Arrival.heartbeat (draw "i" 20000) true
    ∷ Arrival.heartbeat (draw "j" 40000) true
    ∷ Arrival.silence
    ∷ []

abbrev zulu : ℕ → String
zulu n = "Z"

presence_heartbeat_lem_example :
    let (r, w') =
      presence_heartbeat zulu defaults sealing
        (some token_of_ali)
        (draw "h" 7000)
        true
        evening
        office in
    (r ≡ ok (Ending.served ("ok" ∷ "pong" ∷ "pong" ∷ [])))
    × (w'.kafka ≡ (
        if has_key 7000 (presence_key "ali") office
        then office.kafka
        else office.kafka ++ presence_message zulu defaults (draw "h" 7000) "ali" ∷ []))
    × (has_key 69999 (presence_key "ali") w' ≡ ltb 69999 70000)
unfolding text_claim get signed_claims access_claims
presence_heartbeat_lem_example =
    presence_heartbeat_lem zulu defaults "ali" sealing token_of_ali
      (signed_claims defaults (draw "x" 5000) (access_claims "ali" "BASIC_USER" [])
        (access_ttl defaults))
      (draw "h" 7000) evening office 69999
      (access_token_lem sealing defaults sealing_laws (draw "x" 5000) "ali" "BASIC_USER" [] 7000
        (omega arith) (omega arith)).0
      refl (omega arith, omega arith, (omega arith, omega arith, tt))
