-- ===== src/Platform/Relay.antt =====
-- outbox_dispatcher.py: what a poll may change.
use auth_profile_service.Common.{ℕ, String, inl, inr, List, [], ◌∷◌}
use auth_profile_service.Database.World.{OutboxRow, Published, World}
use auth_profile_service.Security.Settings.{Settings}
use auth_profile_service.Messaging.Outbox.{
  Fate, publish, marked, message_of, batch, dispatch_rows, dispatch_batch,
}
use auth_profile_service.Messaging.Delivery.{Fate-cases}

-- What a mark and a message keep is kept by a poll.
module _ (isoformat : ℕ → String) (s : Settings) (P : World → Type 0)
    (marks : (now : ℕ) (id : String) (w : World) → P w → P (marked now id w))
    (sends : (m : Published) (w : World) → P w → P (publish m w)) where
  dispatch_rows-P :
      (fate : String → Fate) (now : ℕ) (rows : List OutboxRow) (w : World)
      → P w
      → P (dispatch_rows isoformat s fate now rows w)
  unfolding dispatch_rows
  dispatch_rows-P fate now [] w h = h
  dispatch_rows-P fate now (row ∷ rows) w h =
      let sent = sends (message_of isoformat s row) w h in
      elim (Fate-cases (fate row.id)) [
        | inl e ↦
            rw (e, dispatch_rows)
              (dispatch_rows-P fate now rows _
                (marks now row.id (publish (message_of isoformat s row) w) sent))
        | inr (inl e) ↦ rw (e, dispatch_rows) (dispatch_rows-P fate now rows _ sent)
        | inr (inr (inl e)) ↦ rw (e, dispatch_rows) (dispatch_rows-P fate now rows w h)
        | inr (inr (inr e)) ↦ rw (e, dispatch_rows) h
      ]

  pub dispatch_batch-P :
      (fate : String → Fate) (now : ℕ) (w : World) → P w → P (dispatch_batch isoformat s fate now w)
  unfolding dispatch_batch
  dispatch_batch-P fate now w h = dispatch_rows-P fate now (batch s.outbox_batch_size w.outbox) w h
