-- ===== src/Messaging/Progress.antt =====
-- outbox_dispatcher.py: a poll that meets no failure gets on with the outbox.
use mathlib.Core.Path.{subst}
use auth_profile_service.Common.{
  ℕ, zero, suc, ◌<◌, String, ◌≡◌, refl, take, true, List, [], ◌∷◌, arith, eq_iff, All, sym, ◌≢◌,
}
use auth_profile_service.Database.World.{OutboxRow, Published, World}
use auth_profile_service.Security.Settings.{Settings}
use auth_profile_service.Messaging.Outbox.{
  Fate, insert_by_time, order_by_time, undispatched, batch, mark, publish, marked, message_of,
  dispatch_rows, dispatch_batch,
}

module _ (isoformat : ℕ → String) (s : Settings) where
  abbrev message : OutboxRow → Published
  message = message_of isoformat s

  -- The rows with an id are marked.
  abbrev pub IsMarked : List OutboxRow → OutboxRow → Type 0
  IsMarked table row = All (λ (r : OutboxRow). r.id ≡ row.id → r.dispatched ≡ true) table

  mark-IsMarked :
      (now : ℕ) (row : OutboxRow) (table : List OutboxRow) → IsMarked (mark now row.id table) row
  unfolding mark
  mark-IsMarked now row [] = tt
  mark-IsMarked now row (r ∷ table) =
      ground (arith, mark-IsMarked now row table, eq_iff r.id row.id)

  IsMarked-mark :
      (now : ℕ) (id : String) (row : OutboxRow) (table : List OutboxRow)
      → IsMarked table row
      → IsMarked (mark now id table) row
  unfolding mark
  IsMarked-mark now id row [] h = tt
  IsMarked-mark now id row (r ∷ table) h = ground (arith, IsMarked-mark now id row table h.1)

  module _ (fate : String → Fate) (delivers : (id : String) → fate id ≡ Fate.delivered)
      (now : ℕ) where
    stays-IsMarked :
        (row : OutboxRow) (rows : List OutboxRow) (w : World)
        → IsMarked w.outbox row
        → IsMarked (dispatch_rows isoformat s fate now rows w).outbox row
    unfolding dispatch_rows marked publish
    stays-IsMarked row [] w h = h
    stays-IsMarked row (r ∷ rows) w h =
        rw (delivers r.id, dispatch_rows)
          (stays-IsMarked row rows (marked now r.id (publish (message r) w))
            (IsMarked-mark now r.id row w.outbox h))

    dispatch_rows-cons :
        (r : OutboxRow) (rows : List OutboxRow) (w : World)
        → dispatch_rows isoformat s fate now (r ∷ rows) w
          ≡ dispatch_rows isoformat s fate now rows (marked now r.id (publish (message r) w))
    unfolding dispatch_rows
    dispatch_rows-cons r rows w = rw (delivers r.id, dispatch_rows)

    All-IsMarked :
        (rows : List OutboxRow) (w : World)
        → All (IsMarked (dispatch_rows isoformat s fate now rows w).outbox) rows
    All-IsMarked [] w = tt
    All-IsMarked (r ∷ rows) w =
        let w' = marked now r.id (publish (message r) w) in
        subst (λ x. All (IsMarked x.outbox) (r ∷ rows)) (sym (dispatch_rows-cons r rows w))
          ((
            stays-IsMarked r rows w' (unfold marked publish in mark-IsMarked now r w.outbox),
            All-IsMarked rows w',
          ))

    insert_some : (r : OutboxRow) (rows : List OutboxRow) → insert_by_time r rows ≢ []
    unfolding insert_by_time
    insert_some r [] = λ e. cc
    insert_some r (x ∷ rows) = ground arith

    order_some : (rows : List OutboxRow) → order_by_time rows ≡ [] → rows ≡ []
    unfolding order_by_time
    order_some [] e = refl
    order_some (r ∷ rows) e = elim (insert_some r (order_by_time rows) e) [ ]

    take_some : (n : ℕ) (rows : List OutboxRow) → 0 < n → take n rows ≡ [] → rows ≡ []
    unfolding take
    take_some zero rows pos e = elim pos [ ]
    take_some (suc n) [] pos e = refl
    take_some (suc n) (r ∷ rows) pos e = cc

    batch_some :
        (n : ℕ) (rows : List OutboxRow) → 0 < n → batch n rows ≡ [] → undispatched rows ≡ []
    unfolding batch
    batch_some n rows pos e =
        order_some (undispatched rows) (take_some n (order_by_time (undispatched rows)) pos e)

    -- A poll in which every publishing and every commit succeeds marks every row that it read; and it
    -- reads a row wherever one is not marked, if the batch size is not zero.
    pub poll_delivers :
        (w : World)
        → 0 < s.outbox_batch_size
        → let rows = batch s.outbox_batch_size w.outbox in
          All (IsMarked (dispatch_batch isoformat s fate now w).outbox) rows
          × (rows ≡ [] → undispatched w.outbox ≡ [])
    unfolding dispatch_batch
    poll_delivers w pos = (
      All-IsMarked (batch s.outbox_batch_size w.outbox) w,
      batch_some s.outbox_batch_size w.outbox pos,
    )
