-- ===== src/Platform/Handler.antt =====
-- consumers/profile_event_consumers.py: `handle_user_events` and what its messages may change.
use auth_profile_service.Common.{ℕ, suc, String, inl, inr, List, [], ◌∷◌, ◌==◌, Bool-cases}
use auth_profile_service.Json.{Json, Fields}
use auth_profile_service.Auth.Errors.{Result-cases}
use auth_profile_service.Database.World.{Published, World, Draw, Exec, pure, ◌>>=◌, ◌>>◌}
use auth_profile_service.Database.Keeps.{Keeps, keeps_rules}
use auth_profile_service.Database.Profiles.{create_if_missing, get_by_user_id}
use auth_profile_service.Messaging.Envelope.{parse, route, handler_for}
use auth_profile_service.Messaging.Consumers.{
  Attempt, dispatch, handle_user_events, attempt, attempts, handle_with_retry,
}
use auth_profile_service.Messaging.Registered.{with_profile}
use auth_profile_service.Messaging.Runner.{Turn, consume}
use auth_profile_service.ReadModel.{project_user}
use auth_profile_service.Platform.{decoded}

-- What a new profile keeps is kept by the consumer of user events, whatever it reads.
module _ (P : World → Type 0)
    (adds : (now : ℕ) (id name : String) (w : World) → P w → P (with_profile now id name w)) where
  create_if_missing-P : (now : ℕ) (id name : String) → Keeps P (create_if_missing now id name)
  unfolding create_if_missing get_by_user_id with_profile
  create_if_missing-P now id name = record { at_state = λ w h. adds now id name w h }

  ruleset new_profile_rules = (keeps_rules, create_if_missing-P)

  project-P : (d : Draw) (p : Fields) → Keeps P (project_user d p >> pure tt)
  unfolding project_user
  project-P d p = search new_profile_rules depth 8

  handle_user_events-P :
      (printed : Json → String) (d : Draw) (message : Json)
      → Keeps P (handle_user_events printed d message)
  unfolding handle_user_events dispatch route handler_for ◌>>=◌ project_user
  handle_user_events-P printed d message = elim (Result-cases (parse printed message)) [
    | inr (x, e) ↦ record { at_state = λ w h. rw (e, route) h }
    | inl (envelope, e) ↦
        elim (Bool-cases ("arcadia.auth.v1.UserRegistered" == envelope.event_type)) [
          | inr f ↦ record { at_state = λ w h. rw (e, route, f) h }
          | inl f ↦ record {
            at_state = λ w h. rw (e, route, f) ((project-P d envelope.payload).at_state w h);
          }
        ]
  ]

  attempt-P :
      (handler : Draw → Exec (Unit {0})) (a : Attempt) (w : World)
      → ((d : Draw) → Keeps P (handler d))
      → P w
      → P (attempt handler a w).1
  unfolding attempt
  attempt-P handler (Attempt.reaches d) w k h = (k d).at_state w h
  attempt-P handler (Attempt.fails e) w k h = h
  attempt-P handler (Attempt.unanswered d e) w k h = (k d).at_state w h

  attempts-P :
      (handler : Draw → Exec (Unit {0})) (more : List Attempt) (w : World)
      → ((d : Draw) → Keeps P (handler d))
      → P w
      → P (attempts handler more w)
  unfolding attempts
  attempts-P handler [] w k h = h
  attempts-P handler (a ∷ more) w k h =
      let h' = attempt-P handler a w k h in
      elim (Result-cases (attempt handler a w).0) [
        | inl (u, e) ↦ rw (e, attempts) h'
        | inr (x, e) ↦ rw (e, attempts) (attempts-P handler more (attempt handler a w).1 k h')
      ]

  pub handle_with_retry-P :
      (printed : Json → String) (m : Published) (first second third : Attempt) (w : World)
      → P w
      → P (
          handle_with_retry
            (λ d. handle_user_events printed d (Json.obj m.payload))
            first
            second
            third
            w)
  unfolding handle_with_retry
  handle_with_retry-P printed m first second third w h =
      attempts-P (λ d. handle_user_events printed d (Json.obj m.payload))
        (first ∷ second ∷ third ∷ []) w (λ d. handle_user_events-P printed d (Json.obj m.payload)) h

  pub consume-P :
      (printed : Json → String) (turns : List Turn) (ms : List Published) (n : ℕ) (w : World)
      → P w
      → P (consume (handle_user_events printed) turns (decoded ms) n w).0
  unfolding consume handle_with_retry
  consume-P printed [] ms n w h = h
  consume-P printed (turn ∷ turns) [] n w h = h
  consume-P printed (Turn.stopping ∷ turns) (m ∷ ms) n w h = h
  consume-P printed (Turn.handled first second third commits ∷ turns) (m ∷ ms) n w h =
      let handler = λ (d : Draw). handle_user_events printed d (Json.obj m.payload) in
      let h' = handle_with_retry-P printed m first second third w h in
      elim (Bool-cases commits) [
        | inl e ↦
            rw e (
              consume-P printed turns ms (suc n) (handle_with_retry handler first second third w)
                h')
        | inr e ↦ rw e h'
      ]
