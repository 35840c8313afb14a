-- ===== src/Platform/Consistent.antt =====
-- app/main.py: the state between the acts of the platform, and what each act does to it.
use mathlib.Core.Path.{subst}
use auth_profile_service.Common.{
  append_assoc, drop_unread, ℕ, String, ◌≡◌, ◌≢◌, refl, sym, ap, ◌∙◌, true, false, none, List, [],
  ◌∷◌, ◌++◌, select-append, drop, is_empty, All, Has, ◌==◌,
}
use auth_profile_service.Json.{Json}
use auth_profile_service.Database.Tables.{Unique}
use auth_profile_service.Database.World.{ProfileRow, OutboxRow, Published, World, Draw}
use auth_profile_service.Database.Users.Integrity.{IsSound, find_user}
use auth_profile_service.Security.Settings.{Settings}
use auth_profile_service.Security.Passwords.{Hasher}
use auth_profile_service.Security.Jwt.{Jwt}
use auth_profile_service.Accounts.Integrity.{UseCase, perform, perform-Stable, perform-IsSound}
use auth_profile_service.Messaging.Outbox.{
  Fate, publish, marked, message_of, dispatch_batch, run_loop,
}
use auth_profile_service.Messaging.Delivery.{IsAccounted, accounted_more, run_loop-Kept}
use auth_profile_service.Messaging.Registered.{with_profile}
use auth_profile_service.Messaging.Consumers.{handle_user_events}
use auth_profile_service.Messaging.Runner.{Turn, consume}
use auth_profile_service.Platform.{Platform, Act, topic_log, decoded, consume_user_events, act}
use auth_profile_service.Platform.Writes.{AllUnmarked, grows-Stable}
use auth_profile_service.Platform.Announced.{AllAnnounced}
use auth_profile_service.Platform.UseCases.{perform-AllAnnounced}
use auth_profile_service.Platform.Consumed.{IsHeard, IsServedTo, consume-served}
use auth_profile_service.Platform.Handler.{consume-P}
use auth_profile_service.Platform.Relay.{dispatch_batch-P}

module _ (printed : Json → String) (isoformat : ℕ → String) (s : Settings) where
  abbrev user_log : List Published → List Published
  user_log = topic_log s.kafka_topic_user_events

  abbrev Served : ℕ → List Published → List ProfileRow → Type 0
  Served n kafka profiles = IsServedTo printed isoformat s n (user_log kafka) profiles

  -- Every account is announced, every marked row was published, and the accounts that the messages
  -- before the offset announce have profiles.
  pub record IsConsistent (p : Platform) : Type 0 where
    pub sound : IsSound p.world
    pub announced : AllAnnounced isoformat s p.world
    pub accounted : IsAccounted isoformat s p.world
    pub served : Served p.offset p.world.kafka p.world.profiles

  IsAccounted-grows :
      (rows new : List OutboxRow) (kafka : List Published)
      → AllUnmarked new
      → All (λ (r : OutboxRow). r.dispatched ≡ true → Has (message_of isoformat s r) kafka) rows
      → All
          (λ (r : OutboxRow). r.dispatched ≡ true → Has (message_of isoformat s r) kafka)
          (rows ++ new)
  IsAccounted-grows [] [] kafka u h = tt
  IsAccounted-grows [] (r ∷ new) kafka u h = (λ e. cc, IsAccounted-grows [] new kafka u.1 h)
  IsAccounted-grows (r ∷ rows) new kafka u h = (h.0, IsAccounted-grows rows new kafka u h.1)

  IsServedTo-append :
      (n : ℕ) (log more : List Published) (profiles : List ProfileRow)
      → IsServedTo printed isoformat s n log profiles
      → IsServedTo printed isoformat s n (log ++ more) profiles
  IsServedTo-append n log more profiles (read, unread, e, f, h) =
      (read, unread ++ more, ap (λ l. l ++ more) e ∙ append_assoc read unread more, f, h)

  Served-sent :
      (n : ℕ) (m : Published) (w : World)
      → Served n w.kafka w.profiles
      → Served n (publish m w).kafka (publish m w).profiles
  unfolding publish topic_log
  Served-sent n m w h =
      rw (select-append (λ (x : Published). x.topic == s.kafka_topic_user_events) w.kafka (m ∷ []))
        (IsServedTo-append n (user_log w.kafka) (user_log (m ∷ [])) w.profiles h)

  IsSound-marked : (now : ℕ) (id : String) (w : World) → IsSound w → IsSound (marked now id w)
  unfolding marked
  IsSound-marked now id w h = record {
    user_ids = h.user_ids;
    emails = h.emails;
    request_ids = h.request_ids;
    owners = h.owners;
  }

  IsSound-sent : (m : Published) (w : World) → IsSound w → IsSound (publish m w)
  unfolding publish
  IsSound-sent m w h = record {
    user_ids = h.user_ids;
    emails = h.emails;
    request_ids = h.request_ids;
    owners = h.owners;
  }

  IsSound-with_profile :
      (now : ℕ) (id name : String) (w : World) → IsSound w → IsSound (with_profile now id name w)
  unfolding with_profile
  IsSound-with_profile now id name w h = record {
    user_ids = h.user_ids;
    emails = h.emails;
    request_ids = h.request_ids;
    owners = h.owners;
  }

  pub polled-IsConsistent :
      (fate : String → Fate) (now : ℕ) (p : Platform)
      → Unique (λ r. r.id) p.world.outbox
      → IsConsistent p
      → IsConsistent (record p { world = dispatch_batch isoformat s fate now p.world })
  unfolding run_loop
  polled-IsConsistent fate now p unique h =
      let w' = dispatch_batch isoformat s fate now p.world in
      let kept = run_loop-Kept isoformat s ((fate, now) ∷ []) p.world unique h.accounted in
      let same =
        dispatch_batch-P isoformat s (λ w. w.users ≡ p.world.users)
          (unfold marked in λ now id w e. e) (unfold publish in λ m w e. e) fate now p.world refl in
      record {
        sound =
            dispatch_batch-P isoformat s IsSound IsSound-marked IsSound-sent fate now p.world
              h.sound;
        announced = λ k m.
            let (row, announces, has) =
              h.announced k (subst (λ us. find_user k us ≢ none) same m) in
            (row, announces, subst (Has (message_of isoformat s row)) (sym kept.0) has);
        accounted = kept.1;
        served =
            dispatch_batch-P isoformat s (λ w. Served p.offset w.kafka w.profiles)
              (unfold marked in λ now id w e. e) (Served-sent p.offset) fate now p.world h.served;
      }

  arrived-IsConsistent :
      (m : Published) (p : Platform)
      → IsConsistent p
      → IsConsistent (record p { world = publish m p.world })
  unfolding publish
  arrived-IsConsistent m p h = record {
    sound = IsSound-sent m p.world h.sound;
    announced = h.announced;
    accounted = accounted_more isoformat s p.world.outbox p.world.kafka m h.accounted;
    served = Served-sent p.offset m p.world h.served;
  }

  consumed-Served :
      (turns : List Turn) (n : ℕ) (w : World)
      → All IsHeard turns
      → Served n w.kafka w.profiles
      → let (w', n') =
          consume (handle_user_events printed) turns (decoded (drop n (user_log w.kafka))) n w in
        Served n' w'.kafka w'.profiles
  consumed-Served turns n w heard (read, unread, e, f, served) =
      let out =
        λ (ms : List Published). consume (handle_user_events printed) turns (decoded ms) n w in
      let same =
        consume-P (λ x. x.kafka ≡ w.kafka) (unfold with_profile in λ now id name x y. y) printed
          turns unread n w refl in
      let rest = drop_unread (user_log w.kafka) read unread n e f in
      subst (λ ms. Served (out ms).1 (out ms).0.kafka (out ms).0.profiles) (sym rest)
        (subst (λ l. IsServedTo printed isoformat s (out unread).1 l (out unread).0.profiles)
          (sym e ∙ ap user_log (sym same))
          (consume-served printed isoformat s turns read unread n w f heard served))

  pub consumed-IsConsistent :
      (turns : List Turn) (p : Platform)
      → All IsHeard turns
      → IsConsistent p
      → IsConsistent (consume_user_events s printed turns p)
  unfolding consume_user_events
  consumed-IsConsistent turns p heard c =
      let ms = drop p.offset (user_log p.world.kafka) in
      record {
        sound = consume-P IsSound IsSound-with_profile printed turns ms p.offset p.world c.sound;
        announced =
            consume-P (AllAnnounced isoformat s) (unfold with_profile in λ now id name w x. x)
              printed turns ms p.offset p.world c.announced;
        accounted =
            consume-P (IsAccounted isoformat s) (unfold with_profile in λ now id name w x. x)
              printed turns ms p.offset p.world c.accounted;
        served = consumed-Served turns p.offset p.world heard c.served;
      }

module _ {Token : Type 0} (jwt : Jwt Token) (s : Settings) (h : Hasher) (printed : Json → String)
    (isoformat : ℕ → String) where
  called-IsConsistent :
      (d : Draw) (c : UseCase Token) (p : Platform)
      → find_user (d.uuid 0) p.world.users ≡ none
      → is_empty (d.uuid 1) ≡ false
      → IsConsistent printed isoformat s p
      → IsConsistent printed isoformat s (record p { world = perform jwt s h d c p.world })
  called-IsConsistent d c p fresh i k = record {
    sound = perform-IsSound jwt s h d c p.world k.sound;
    announced = perform-AllAnnounced jwt s h isoformat d c p.world k.sound fresh i k.announced;
    accounted =
        perform-Stable jwt s h
          (grows-Stable
            (λ rows kafka profiles.
              All (λ (r : OutboxRow). r.dispatched ≡ true → Has (message_of isoformat s r) kafka)
                rows)
            (λ rows new kafka profiles. IsAccounted-grows printed isoformat s rows new kafka))
          d c p.world k.accounted;
    served =
        perform-Stable jwt s h
          (grows-Stable
            (λ rows kafka profiles.
              IsServedTo printed isoformat s p.offset (topic_log s.kafka_topic_user_events kafka)
                profiles)
            (λ rows new kafka profiles u x. x))
          d c p.world k.served;
  }

  -- What an act assumes of what it draws: a use case draws an id that no account has and one that is
  -- no empty text, a poll meets an outbox whose ids are unique, and of the three attempts at a message
  -- that a run of the consumer commits one runs to its end.
  abbrev pub IsFresh : Act Token → Platform → Type 0
  IsFresh (Act.calls d c) p =
      (find_user (d.uuid 0) p.world.users ≡ none) × (is_empty (d.uuid 1) ≡ false)
  IsFresh (Act.polls fate now) p = Unique (λ r. r.id) p.world.outbox
  IsFresh (Act.arrives m) p = Unit
  IsFresh (Act.consumes turns) p = All IsHeard turns

  pub act-IsConsistent :
      (a : Act Token) (p : Platform)
      → IsFresh a p
      → IsConsistent printed isoformat s p
      → IsConsistent printed isoformat s (act jwt s h printed isoformat a p)
  unfolding act
  act-IsConsistent (Act.calls d c) p fresh k = called-IsConsistent d c p fresh.0 fresh.1 k
  act-IsConsistent (Act.polls fate now) p fresh k =
      polled-IsConsistent printed isoformat s fate now p fresh k
  act-IsConsistent (Act.arrives m) p fresh k = arrived-IsConsistent printed isoformat s m p k
  act-IsConsistent (Act.consumes turns) p fresh k =
      consumed-IsConsistent printed isoformat s turns p fresh k
