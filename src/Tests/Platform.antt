-- ===== src/Tests/Platform.antt =====
-- The examples of the platform: one registration on its way to its profile.
use auth_profile_service.Auth.Events.{event_type, to_payload}
use auth_profile_service.Auth.User
use auth_profile_service.ReadModel.{project_user}
use auth_profile_service.Database.Profiles.{create_if_missing}
use auth_profile_service.Database.Tables.{put, scalar_one_or_none}
use auth_profile_service.Database.Users.{outbox_rows, email_taken, save, get_by_email}
use auth_profile_service.Database.World.{◌>>=◌}
use auth_profile_service.Accounts.{register_user}
use auth_profile_service.Common.{
  ℕ, String, ◌≡◌, ◌≢◌, ◌+◌, ◌≤◌, ◌++◌, ◌⊎◌, refl, arith, none, some, true, List, [], ◌∷◌, map,
  length, select, take,
}
use auth_profile_service.Auth.Errors.{Error}
use auth_profile_service.Json.{Json, is_truthy, get}
use auth_profile_service.Database.Tables.{find}
use auth_profile_service.Database.World.{OutboxRow}
use auth_profile_service.Database.Profiles.{find_profile}
use auth_profile_service.Security.Settings.{defaults}
use auth_profile_service.Accounts.Integrity.{UseCase}
use auth_profile_service.Messaging.Consumers.{Attempt, handle_user_events}
use auth_profile_service.Messaging.Outbox.{Fate, message_of, dispatch_batch}
use auth_profile_service.Messaging.Runner.{Turn, consume, restarts}
use auth_profile_service.Messaging.Runner.Offsets.{consume_ends, restarts-le_undecodable}
use auth_profile_service.Platform.{Platform, Act, topic_log, consume_user_events, act, run}
use auth_profile_service.Platform.Announced.{Announces}
use auth_profile_service.Platform.Consistent.{IsConsistent, act-IsConsistent}
use auth_profile_service.Platform.Registrations.{IsOnItsWay, run-registered}
use auth_profile_service.Platform.Settled.{settled_profiles}
use auth_profile_service.Tests.{Sealed, sealing, marking, draw}

abbrev print : Json → String
print v = "?"

abbrev iso : ℕ → String
iso n = "2026-01-01T00:00:00+00:00"

abbrev nothing : Platform
nothing = record {
  world = record {
    db = record {
      users = [];
      role_requests = [];
      outbox = [];
      login_audit = [];
      profiles = [];
      owned_games = [];
      owned_items = [];
      top_posts = [];
    };
    redis = [];
    kafka = [];
  };
  offset = 0;
}

nothing-IsConsistent : IsConsistent print iso defaults nothing
unfolding find topic_log select
nothing-IsConsistent = record {
  sound = record { user_ids = tt; emails = tt; request_ids = tt; owners = tt };
  announced = λ k m. elim (m refl) [ ];
  accounted = tt;
  served = ([], [], refl, refl, tt);
}

abbrev fine : String → Fate
fine id = Fate.delivered

abbrev turn : Turn
turn =
    Turn.handled (Attempt.fails Error.integrity_error)
      (Attempt.unanswered (draw "t" 30) Error.integrity_error) (Attempt.reaches (draw "u" 31)) true

some_ne_none : {A : Type 0} (a : A) → some a ≢ none
some_ne_none a e = cc

abbrev day : List (Act Sealed)
day =
    Act.calls (draw "a" 10) (UseCase.register "s" "ada@a.com" "long-enough" "Ada")
    ∷ Act.polls fine 20
    ∷ Act.consumes (turn ∷ [])
    ∷ []

run-registered_example :
    let p' = run sealing defaults marking print iso day nothing in
    (find_profile "a0" p'.world.profiles ≢ none)
    ⊎ ((row : OutboxRow) × Announces "a0" row
        × IsOnItsWay print iso defaults p' (message_of iso defaults row))
unfolding find run act register_user ◌>>=◌ get_by_email scalar_one_or_none select save email_taken
    outbox_rows User.register take put is_truthy get event_type to_payload project_user
    create_if_missing
run-registered_example =
    run-registered sealing defaults marking print iso day nothing "a0" nothing-IsConsistent
      ((refl, refl), ((refl, tt), ((λ c. tt, tt), tt))) refl (λ m. some_ne_none _ m)

-- Ada is registered, and nothing else happened.
abbrev registered : Platform
registered =
    act sealing defaults marking print iso
      (Act.calls (draw "a" 10) (UseCase.register "s" "ada@a.com" "long-enough" "Ada")) nothing

registered-IsConsistent : IsConsistent print iso defaults registered
unfolding find
registered-IsConsistent =
    act-IsConsistent sealing defaults marking print iso
      (Act.calls (draw "a" 10) (UseCase.register "s" "ada@a.com" "long-enough" "Ada")) nothing
      (refl, refl) nothing-IsConsistent

settled_profiles_example :
    find_profile "a0"
      (consume_user_events defaults print (turn ∷ []) (record registered {
        world = dispatch_batch iso defaults fine 20 registered.world;
      })).world.profiles
    ≢ none
unfolding find act register_user ◌>>=◌ get_by_email scalar_one_or_none select save email_taken
    outbox_rows User.register take put
settled_profiles_example =
    settled_profiles print iso defaults registered registered-IsConsistent (refl, tt) refl fine
      (λ id. refl) (omega arith) (omega arith) 20 (turn ∷ []) (refl, tt) (λ c. tt, tt) (omega arith)
      "a0" (λ m. some_ne_none _ m)

consume_ends_example :
    (consume
      (λ d m. handle_user_events print d m)
      (turn ∷ turn ∷ [])
      (map (λ (m : Json). some m) (Json.str "x" ∷ Json.str "y" ∷ []))
      7
      nothing.world).1
    ≡ 7 + length (Json.str "x" ∷ Json.str "y" ∷ [])
consume_ends_example =
    consume_ends (λ d m. handle_user_events print d m) (turn ∷ turn ∷ [])
      (Json.str "x" ∷ Json.str "y" ∷ []) 7 nothing.world (refl, (refl, tt)) (omega arith)

-- The database is out of reach for all of the attempts.
abbrev lost : Turn
lost =
    Turn.handled (Attempt.fails Error.integrity_error) (Attempt.fails Error.value_error)
      (Attempt.fails Error.integrity_error) true

restarts-le_undecodable_example :
    (restarts
      (handle_user_events print)
      ((turn ∷ turn ∷ turn ∷ []) ∷ (turn ∷ turn ∷ []) ∷ [])
      ((some (Json.str "x") ∷ []) ++ none ∷ some (Json.str "y") ∷ [])
      0
      nothing.world).1
    ≤ length (some (Json.str "x") ∷ [])
restarts-le_undecodable_example =
    restarts-le_undecodable (handle_user_events print)
      ((turn ∷ turn ∷ turn ∷ []) ∷ (turn ∷ turn ∷ []) ∷ []) (some (Json.str "x") ∷ [])
      (some (Json.str "y") ∷ []) 0 nothing.world (omega arith)
