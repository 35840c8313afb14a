-- ===== src/Platform/Consumed.antt =====
-- kafka_consumer_base.py and consumers/profile_event_consumers.py: the messages that the consumer of
-- user events committed, and the profiles of the accounts that they announce.
use mathlib.Core.Path.{subst}
use auth_profile_service.Common.{
  append_assoc, ℕ, suc, String, ◌≡◌, ◌≢◌, refl, sym, ap, inl, inr, false, none, List, [], ◌∷◌, ◌++◌,
  arith, length, length-append, true, All, eq_refl, All-append, Bool-cases, Option-cases,
}
use auth_profile_service.Json.{Json}
use auth_profile_service.Auth.Errors.{ok}
use auth_profile_service.Database.Tables.{find, find-append}
use auth_profile_service.Database.World.{ProfileRow, OutboxRow, Published, World, Draw, Exec}
use auth_profile_service.Database.Profiles.{find_profile, insert_if_missing}
use auth_profile_service.Security.Settings.{Settings}
use auth_profile_service.Messaging.Consumers.{
  Attempt, handle_user_events, attempt, attempts, handle_with_retry,
}
use auth_profile_service.Messaging.Outbox.{message_of}
use auth_profile_service.Messaging.Registered.{with_profile, registered_profile}
use auth_profile_service.Messaging.Runner.{Turn, consume}
use auth_profile_service.Platform.{decoded}
use auth_profile_service.Platform.Announced.{Announces}
use auth_profile_service.Platform.Handler.{handle_with_retry-P}

abbrev new_profile : ℕ → String → String → ProfileRow
new_profile now id name = record {
  user_id = id;
  display_name = name;
  avatar_url = "";
  online = false;
  updated_at = now;
}

find_profile-with_profile :
    (k : String) (now : ℕ) (id name : String) (w : World)
    → find_profile k w.profiles ≢ none
    → find_profile k (with_profile now id name w).profiles ≢ none
unfolding with_profile insert_if_missing
find_profile-with_profile k now id name w h = elim (Option-cases (find_profile id w.profiles)) [
  | inr (row, e) ↦ rw (e, insert_if_missing) h
  | inl e ↦
      rw (e, insert_if_missing)
        (λ f. ground (
          arith,
          h,
          f,
          find-append (λ (r : ProfileRow). r.user_id) k w.profiles (new_profile now id name ∷ []),
        ))
]

with_profile_found :
    (now : ℕ) (k name : String) (w : World)
    → find_profile k (with_profile now k name w).profiles ≢ none
unfolding with_profile insert_if_missing find
with_profile_found now k name w = elim (Option-cases (find_profile k w.profiles)) [
  | inr (row, e) ↦ rw (e, insert_if_missing) (λ f. cc)
  | inl e ↦
      rw (e, insert_if_missing)
        (λ f. ground (
          arith,
          e,
          f,
          find-append (λ (r : ProfileRow). r.user_id) k w.profiles (new_profile now k name ∷ []),
          eq_refl k,
        ))
]

-- An attempt that returns is the last.
attempts_ok :
    (handler : Draw → Exec (Unit {0})) (d : Draw) (more : List Attempt) (w w' : World)
    → handler d w ≡ (ok tt, w')
    → attempts handler (Attempt.reaches d ∷ more) w ≡ w'
unfolding attempts attempt
attempts_ok handler d more w w' e = rw (e, attempts) (ap (λ x. x.1) e)

-- One of the attempts runs to its end.
abbrev pub OneReaches : List Attempt → Type 0
OneReaches [] = ⊥
OneReaches (Attempt.reaches d ∷ more) = Unit
OneReaches (Attempt.fails e ∷ more) = OneReaches more
OneReaches (Attempt.unanswered d e ∷ more) = OneReaches more

-- A message whose offset is committed in the turn was not given up.
abbrev pub IsHeard : Turn → Type 0
IsHeard Turn.stopping = Unit
IsHeard (Turn.handled first second third commits) =
    commits ≡ true → OneReaches (first ∷ second ∷ third ∷ [])

module _ (printed : Json → String) (isoformat : ℕ → String) (s : Settings) where
  -- The account that a message announces has a profile.
  abbrev pub IsServed : List ProfileRow → Published → Type 0
  IsServed profiles m =
      (k : String) (row : OutboxRow)
      → Announces k row
      → m ≡ message_of isoformat s row
      → find_profile k profiles ≢ none

  -- The messages before the offset are a part of the log, and are served.
  abbrev pub IsServedTo : ℕ → List Published → List ProfileRow → Type 0
  IsServedTo n log profiles =
      (read : List Published) × (unread : List Published) × (log ≡ read ++ unread)
      × (n ≡ length read)
      × All (IsServed profiles) read

  attempts-IsServed :
      (m : Published) (more : List Attempt) (w : World)
      → OneReaches more
      → IsServed
          (attempts (λ d. handle_user_events printed d (Json.obj m.payload)) more w).profiles
          m
  unfolding attempts attempt message_of
  attempts-IsServed m [] w o k row a e = elim o [ ]
  attempts-IsServed m (Attempt.fails x ∷ more) w o k row a e =
      attempts-IsServed m more w o k row a e
  attempts-IsServed m (Attempt.unanswered d x ∷ more) w o k row a e =
      attempts-IsServed m more (handle_user_events printed d (Json.obj m.payload) w).1 o k row a e
  attempts-IsServed m (Attempt.reaches d ∷ more) w o k row a e =
      let handler = λ (x : Draw). handle_user_events printed x (Json.obj m.payload) in
      let done = attempts_ok handler d more w (with_profile d.now k a.display_name w) (
        subst
          (λ x.
            handle_user_events printed d (Json.obj x.payload) w
            ≡ (ok tt, with_profile d.now k a.display_name w))
          (sym e)
          (registered_profile printed isoformat s row k a.email a.display_name a.role a.state d w
            a.has_id a.has_type a.has_payload)) in
      subst (λ x. find_profile k x.profiles ≢ none) (sym done)
        (with_profile_found d.now k a.display_name w)

  with_profile-IsServed :
      (now : ℕ) (id name : String) (w : World) (m : Published)
      → IsServed w.profiles m
      → IsServed (with_profile now id name w).profiles m
  with_profile-IsServed now id name w m h k row a e =
      find_profile-with_profile k now id name w (h k row a e)

  with_profile-AllServed :
      (now : ℕ) (id name : String) (ms : List Published) (w : World)
      → All (IsServed w.profiles) ms
      → All (IsServed (with_profile now id name w).profiles) ms
  with_profile-AllServed now id name [] w h = tt
  with_profile-AllServed now id name (m ∷ ms) w h =
      (with_profile-IsServed now id name w m h.0, with_profile-AllServed now id name ms w h.1)

  pub consume-served :
      (turns : List Turn) (read unread : List Published) (n : ℕ) (w : World)
      → n ≡ length read
      → All IsHeard turns
      → All (IsServed w.profiles) read
      → let (w', n') = consume (handle_user_events printed) turns (decoded unread) n w in
        IsServedTo n' (read ++ unread) w'.profiles
  unfolding consume handle_with_retry
  consume-served [] read unread n w e heard h = (read, unread, refl, e, h)
  consume-served (turn ∷ turns) read [] n w e heard h = (read, [], refl, e, h)
  consume-served (Turn.stopping ∷ turns) read (m ∷ unread) n w e heard h =
      (read, m ∷ unread, refl, e, h)
  consume-served (Turn.handled first second third commits ∷ turns) read (m ∷ unread) n w e heard h =
      let handler = λ (d : Draw). handle_user_events printed d (Json.obj m.payload) in
      let w' = handle_with_retry handler first second third w in
      let kept =
        handle_with_retry-P (λ x. All (IsServed x.profiles) read)
          (λ now id name x. with_profile-AllServed now id name read x) printed m first second third
          w h in
      elim (Bool-cases commits) [
        | inr f ↦ rw f ((read, m ∷ unread, refl, e, kept))
        | inl f ↦ rw f (
            subst
              (λ l.
                IsServedTo
                  (consume (handle_user_events printed) turns (decoded unread) (suc n) w').1 l
                  (consume (handle_user_events printed) turns (decoded unread) (suc n)
                    w').0.profiles)
              (append_assoc read (m ∷ []) unread)
              (consume-served turns (read ++ m ∷ []) unread (suc n) w'
                (omega (arith, e, length-append read (m ∷ []))) heard.1
                (All-append (IsServed w'.profiles) read (m ∷ []) kept
                  (attempts-IsServed m (first ∷ second ∷ third ∷ []) w (heard.0 f), tt))))
      ]
