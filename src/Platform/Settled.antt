-- ===== src/Platform/Settled.antt =====
-- app/main.py: one poll of the relay in which nothing fails, and one run of the consumer in which no
-- message is given up.
use mathlib.Core.Path.{subst}
use auth_profile_service.Common.{
  drop_all, ℕ, ◌+◌, ◌≤◌, ◌<◌, String, ◌≡◌, ◌≢◌, refl, sym, ap, ◌∙◌, inl, inr, none, some, List, [],
  ◌∷◌, map, drop, arith, length, length-map, All, Has,
}
use auth_profile_service.Json.{Json}
use auth_profile_service.Database.Tables.{Unique}
use auth_profile_service.Database.World.{Published, World}
use auth_profile_service.Database.Users.Integrity.{find_user}
use auth_profile_service.Database.Profiles.{find_profile}
use auth_profile_service.Security.Settings.{Settings}
use auth_profile_service.Messaging.Outbox.{
  publish, marked, Fate, undispatched, message_of, dispatch_batch,
}
use auth_profile_service.Messaging.Consumers.{handle_user_events}
use auth_profile_service.Messaging.Registered.{with_profile}
use auth_profile_service.Messaging.Runner.{Turn, consume}
use auth_profile_service.Messaging.Runner.Offsets.{IsClean, consume_ends}
use auth_profile_service.Platform.{Platform, topic_log, decoded, consume_user_events}
use auth_profile_service.Platform.Consumed.{IsHeard}
use auth_profile_service.Platform.Consistent.{
  IsConsistent, polled-IsConsistent, consumed-IsConsistent,
}
use auth_profile_service.Platform.Registrations.{consistent_account}
use auth_profile_service.Platform.Arrival.{poll_empties}
use auth_profile_service.Platform.Handler.{consume-P}
use auth_profile_service.Platform.Relay.{dispatch_batch-P}

decoded_shape :
    (ms : List Published)
    → map (λ (j : Json). some j) (map (λ (m : Published). Json.obj m.payload) ms) ≡ decoded ms
decoded_shape [] = refl
decoded_shape (m ∷ ms) = rw (decoded_shape ms)

module _ (printed : Json → String) (isoformat : ℕ → String) (s : Settings) where
  abbrev user_log : World → List Published
  user_log w = topic_log s.kafka_topic_user_events w.kafka

  consumed_to :
      (turns : List Turn) (ms : List Published) (n : ℕ) (w : World)
      → All IsClean turns
      → length ms ≤ length turns
      → (consume (handle_user_events printed) turns (decoded ms) n w).1 ≡ n + length ms
  consumed_to turns ms n w clean enough =
      let messages = map (λ (m : Published). Json.obj m.payload) ms in
      let same = length-map (λ (m : Published). Json.obj m.payload) ms in
      ap (λ l. (consume (handle_user_events printed) turns l n w).1) (sym (decoded_shape ms))
      ∙ consume_ends (handle_user_events printed) turns messages n w clean
          (omega (arith, same, enough))
      ∙ ap (λ l. n + l) same

  -- A run with a turn for each unread message, whose commits succeed, leaves none.
  consumed_to_end :
      (turns : List Turn) (p : Platform)
      → All IsClean turns
      → length (drop p.offset (user_log p.world)) ≤ length turns
      → let p' = consume_user_events s printed turns p in
        (drop p'.offset (user_log p'.world) ≡ [])
        × (p'.world.outbox ≡ p.world.outbox)
        × (p'.world.users ≡ p.world.users)
  unfolding consume_user_events
  consumed_to_end turns p clean enough =
      let unread = drop p.offset (user_log p.world) in
      (
        ap
              (λ l.
                drop
                  (consume (handle_user_events printed) turns (decoded unread) p.offset p.world).1
                  (topic_log s.kafka_topic_user_events l))
              (consume-P (λ w. w.kafka ≡ p.world.kafka)
                (unfold with_profile in λ now id name w e. e) printed turns unread p.offset p.world
                refl)
            ∙ ap (λ n. drop n (user_log p.world))
                (consumed_to turns unread p.offset p.world clean enough)
            ∙ drop_all p.offset (user_log p.world),
        consume-P (λ w. w.outbox ≡ p.world.outbox) (unfold with_profile in λ now id name w e. e)
            printed turns unread p.offset p.world refl,
        consume-P (λ w. w.users ≡ p.world.users) (unfold with_profile in λ now id name w e. e)
            printed turns unread p.offset p.world refl,
      )

  -- From a consistent state with unique outbox ids, and with the topic of user events under its name:
  -- a poll whose batch has room for every row that is still to be sent, and in which every row is
  -- delivered, and then a run of the consumer with a turn for each unread message, in which every
  -- commit succeeds and one of the three attempts at each message runs to its end, leave every account
  -- with a profile.
  pub settled_profiles :
      (p : Platform)
      → IsConsistent printed isoformat s p
      → Unique (λ r. r.id) p.world.outbox
      → s.kafka_topic_user_events ≡ "user-events"
      → (fate : String → Fate) → ((id : String) → fate id ≡ Fate.delivered)
      → length (undispatched p.world.outbox) ≤ s.outbox_batch_size
      → 0 < s.outbox_batch_size
      → (now : ℕ) (turns : List Turn) → All IsClean turns
      → All IsHeard turns
      → let polled = record p { world = dispatch_batch isoformat s fate now p.world } in
        length (drop polled.offset (topic_log s.kafka_topic_user_events polled.world.kafka))
          ≤ length turns
        → (k : String) → find_user k p.world.users ≢ none
        → find_profile k (consume_user_events s printed turns polled).world.profiles ≢ none
  settled_profiles p c unique topic fate delivers room pos now turns clean heard enough k m =
      let polled : Platform = record p { world = dispatch_batch isoformat s fate now p.world } in
      let (none_unread, same_outbox, same_users) = consumed_to_end turns polled clean enough in
      let users =
        dispatch_batch-P isoformat s (λ w. w.users ≡ p.world.users)
          (unfold marked in λ now id w e. e) (unfold publish in λ m w e. e) fate now p.world refl in
      let c' =
        consumed-IsConsistent printed isoformat s turns polled heard
          (polled-IsConsistent printed isoformat s fate now p unique c) in
      elim (consistent_account printed isoformat s (consume_user_events s printed turns polled) k c'
        topic (subst (λ us. find_user k us ≢ none) (sym (same_users ∙ users)) m)) [
          | inl found ↦ found
          | inr (row, announces, inl waiting) ↦
              elim (subst
                (λ rows. Has (message_of isoformat s row) (map (message_of isoformat s) rows))
                (ap undispatched same_outbox
                  ∙ poll_empties isoformat s fate delivers now p.world room pos)
                waiting) [ ]
          | inr (row, announces, inr unread) ↦
              elim (subst (Has (message_of isoformat s row)) none_unread unread) [ ]
        ]
