-- ===== src/Messaging/Runner/Offsets.antt =====
-- kafka_consumer_base.py: how far a consumer gets.
use auth_profile_service.Common.{
  drop, drop-append, length-drop, ℕ, suc, ◌+◌, ◌≤◌, ◌≡◌, true, Option, none, some, List, [], ◌∷◌,
  ◌++◌, map, arith, length, All,
}
use auth_profile_service.Json.{Json}
use auth_profile_service.Auth.Errors.{Error}
use auth_profile_service.Database.World.{World, Draw, Exec}
use auth_profile_service.Messaging.Consumers.{Attempt, handle_with_retry}
use auth_profile_service.Messaging.Runner.{Turn, consume, restarts}

-- A turn in which the loop runs on and the commit succeeds.
abbrev pub IsClean : Turn → Type 0
IsClean Turn.stopping = ⊥
IsClean (Turn.handled first second third commits) = commits ≡ true

-- The attempt fails, and stores nothing.
abbrev pub Fails : Attempt → Type 0
Fails a = (e : Error) × (a ≡ Attempt.fails e)

-- A turn whose message is given up, and whose commit succeeds.
abbrev pub IsGivenUp : Turn → Type 0
IsGivenUp Turn.stopping = ⊥
IsGivenUp (Turn.handled first second third commits) =
    Fails first × Fails second × Fails third × (commits ≡ true)

module _ (handler : Draw → Json → Exec (Unit {0})) where
  -- A loop whose commits succeed, with a turn for each message, comes to the end of the messages, and
  -- commits the offset behind the last one, whatever the handler makes of them.
  pub consume_ends :
      (turns : List Turn) (messages : List Json) (committed : ℕ) (w : World)
      → All IsClean turns
      → length messages ≤ length turns
      → (consume handler turns (map (λ m. some m) messages) committed w).1
        ≡ committed + length messages
  unfolding consume
  consume_ends [] [] committed w clean enough = omega arith
  consume_ends [] (m ∷ messages) committed w clean enough = ground arith
  consume_ends (turn ∷ turns) [] committed w clean enough = omega arith
  consume_ends (Turn.stopping ∷ turns) (m ∷ messages) committed w clean enough = elim clean.0 [ ]
  consume_ends (Turn.handled first second third commits ∷ turns) (m ∷ messages) committed w clean
        enough =
      let w' = handle_with_retry (λ d. handler d m) first second third w in
      rw clean.0
        (omega (arith, consume_ends turns messages (suc committed) w' clean.1 (omega arith)))

  -- A loop commits no offset behind a message that is not JSON.
  consume-le_undecodable :
      (turns : List Turn) (before rest : List (Option Json)) (committed : ℕ) (w : World)
      → (consume handler turns (before ++ none ∷ rest) committed w).1 ≤ committed + length before
  unfolding consume
  consume-le_undecodable [] before rest committed w = omega arith
  consume-le_undecodable (turn ∷ turns) [] rest committed w = omega arith
  consume-le_undecodable (turn ∷ turns) (none ∷ before) rest committed w = omega arith
  consume-le_undecodable (Turn.stopping ∷ turns) (some m ∷ before) rest committed w = omega arith
  consume-le_undecodable (Turn.handled first second third commits ∷ turns) (some m ∷ before) rest
        committed w =
      let w' = handle_with_retry (λ d. handler d m) first second third w in
      ground (arith, consume-le_undecodable turns before rest (suc committed) w')

module _ (handler : Draw → Json → Exec (Unit {0})) where
  consume_within :
      (turns : List Turn) (before rest : List (Option Json)) (committed : ℕ) (w : World)
      → committed ≤ length before
      → (consume handler turns (drop committed (before ++ none ∷ rest)) committed w).1
        ≤ length before
  consume_within turns before rest committed w h =
      rw (drop-append committed before (none ∷ rest) h) (
        omega (
          arith,
          consume-le_undecodable handler turns (drop committed before) rest committed w,
          length-drop committed before h,
        ))

  -- No number of restarts, with any turns, commits an offset behind a message that is not JSON, if the
  -- offset was not behind it before.
  pub restarts-le_undecodable :
      (processes : List (List Turn)) (before rest : List (Option Json)) (committed : ℕ) (w : World)
      → committed ≤ length before
      → (restarts handler processes (before ++ none ∷ rest) committed w).1 ≤ length before
  unfolding restarts
  restarts-le_undecodable [] before rest committed w h = h
  restarts-le_undecodable (turns ∷ processes) before rest committed w h =
      let out = consume handler turns (drop committed (before ++ none ∷ rest)) committed w in
      restarts-le_undecodable processes before rest out.1 out.0
        (consume_within turns before rest committed w h)
