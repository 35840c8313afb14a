-- ===== src/Platform/Registrations.antt =====
-- app/main.py: where the registration of an account stands, after any acts in any order.
use mathlib.Core.Path.{subst}
use auth_profile_service.Common.{
  drop_unread, Has-select, Has-split, All-Has, ℕ, String, ◌≡◌, ◌≢◌, ◌⊎◌, refl, sym, ◌∙◌, inl, inr,
  true, none, List, [], ◌∷◌, map, select, drop, All, Has, ◌==◌, eq_iff, Bool-cases,
}
use auth_profile_service.Json.{Json}
use auth_profile_service.Database.World.{OutboxRow, Published}
use auth_profile_service.Database.Users.Integrity.{find_user}
use auth_profile_service.Database.Profiles.{find_profile}
use auth_profile_service.Security.Settings.{Settings}
use auth_profile_service.Security.Passwords.{Hasher}
use auth_profile_service.Security.Jwt.{Jwt}
use auth_profile_service.Messaging.Outbox.{undispatched, message_of}
use auth_profile_service.Platform.{Platform, Act, topic_log, act, run}
use auth_profile_service.Platform.Announced.{Announces}
use auth_profile_service.Platform.Consumed.{IsServed}
use auth_profile_service.Platform.Consistent.{IsConsistent, IsFresh, act-IsConsistent}

module _ (printed : Json → String) (isoformat : ℕ → String) (s : Settings) where
  -- The message is on its way: its row is still to be sent, or it is still to be read.
  abbrev pub IsOnItsWay : Platform → Published → Type 0
  IsOnItsWay p m =
      Has m (map (message_of isoformat s) (undispatched p.world.outbox))
      ⊎ Has m (drop p.offset (topic_log s.kafka_topic_user_events p.world.kafka))

  sent_or_waiting :
      (m : Published) (kafka : List Published) (rows : List OutboxRow)
      → All (λ (r : OutboxRow). r.dispatched ≡ true → Has (message_of isoformat s r) kafka) rows
      → Has m (map (message_of isoformat s) rows)
      → Has m (map (message_of isoformat s) (undispatched rows)) ⊎ Has m kafka
  unfolding undispatched select message_of
  sent_or_waiting m kafka [] all h = elim h [ ]
  sent_or_waiting m kafka (r ∷ rows) all (inl e) = elim (Bool-cases r.dispatched) [
    | inl f ↦ inr (subst (λ x. Has x kafka) e (all.0 f))
    | inr f ↦ rw f (inl (inl e))
  ]
  sent_or_waiting m kafka (r ∷ rows) all (inr h) = elim (sent_or_waiting m kafka rows all.1 h) [
    | inr g ↦ inr g
    | inl g ↦ elim (Bool-cases r.dispatched) [ inl f ↦ rw f (inl g) | inr f ↦ rw f (inl (inr g)) ]
  ]

  -- In a consistent state, with the topic of user events under its name, an account has a profile, or
  -- the message of its registration is on its way.
  pub consistent_account :
      (p : Platform) (k : String)
      → IsConsistent printed isoformat s p
      → s.kafka_topic_user_events ≡ "user-events"
      → find_user k p.world.users ≢ none
      → (find_profile k p.world.profiles ≢ none)
        ⊎ ((row : OutboxRow) × Announces k row × IsOnItsWay p (message_of isoformat s row))
  unfolding topic_log message_of
  consistent_account p k c topic m =
      let (row, announces, has) = c.announced k m in
      let (read, unread, e, f, served) = c.served in
      let message = message_of isoformat s row in
      elim (sent_or_waiting message p.world.kafka p.world.outbox c.accounted has) [
        | inl g ↦ inr (row, announces, inl g)
        | inr g ↦
            elim (Has-split message read unread (
              subst (Has message) e (
                Has-select (λ (x : Published). x.topic == s.kafka_topic_user_events) message
                  p.world.kafka
                  ((eq_iff row.topic s.kafka_topic_user_events).1 (announces.has_topic ∙ sym topic))
                  g))) [
                    | inl i ↦ inl (
                        All-Has (IsServed printed isoformat s p.world.profiles) message read served
                          i k row announces refl)
                    | inr i ↦ inr (
                      row,
                      announces,
                      inr (
                          subst (Has message)
                            (sym (
                              drop_unread (topic_log s.kafka_topic_user_events p.world.kafka) read
                                unread p.offset e f))
                            i),
                    )
                  ]
      ]

module _ {Token : Type 0} (jwt : Jwt Token) (s : Settings) (h : Hasher) (printed : Json → String)
    (isoformat : ℕ → String) where
  abbrev pub AllFresh : List (Act Token) → Platform → Type 0
  AllFresh [] p = Unit
  AllFresh (a ∷ acts) p =
      IsFresh jwt s h printed isoformat a p × AllFresh acts (act jwt s h printed isoformat a p)

  run-IsConsistent :
      (acts : List (Act Token)) (p : Platform)
      → AllFresh acts p
      → IsConsistent printed isoformat s p
      → IsConsistent printed isoformat s (run jwt s h printed isoformat acts p)
  unfolding run
  run-IsConsistent [] p fresh c = c
  run-IsConsistent (a ∷ acts) p fresh c =
      run-IsConsistent acts (act jwt s h printed isoformat a p) fresh.1
        (act-IsConsistent jwt s h printed isoformat a p fresh.0 c)

  -- No registration is lost while no message is given up. From a consistent state (sound tables, an
  -- outbox row with the event of its registration for every account, every marked row published, and a
  -- profile for every account whose event stands before the consumer's offset), after any use cases,
  -- polls of the relay, arriving messages and runs of the consumer of user events, in any order, with
  -- failures of the publishing, of attempts at a message and of either commit, as long as no message
  -- is given up and committed, so that of the three attempts at a message whose offset is committed
  -- one runs to its end: every account has a profile, or an outbox row with the event of its
  -- registration has a message that is still to be sent, or to be read behind the offset. The ids of
  -- accounts that are drawn are new, outbox ids are unique at every poll and no empty texts, and the
  -- setting of the topic of user events is the name that the outbox rows carry.
  pub run-registered :
      (acts : List (Act Token)) (p : Platform) (k : String)
      → IsConsistent printed isoformat s p
      → AllFresh acts p
      → s.kafka_topic_user_events ≡ "user-events"
      → let p' = run jwt s h printed isoformat acts p in
        find_user k p'.world.users ≢ none
        → (find_profile k p'.world.profiles ≢ none)
          ⊎ ((row : OutboxRow) × Announces k row
              × IsOnItsWay printed isoformat s p' (message_of isoformat s row))
  run-registered acts p k c fresh topic =
      consistent_account printed isoformat s (run jwt s h printed isoformat acts p) k
        (run-IsConsistent acts p fresh c) topic
