-- ===== src/Platform/Arrival.antt =====
-- outbox_dispatcher.py: one poll in which nothing fails, and the rows that are left.
use mathlib.Core.Path.{subst}
use auth_profile_service.Common.{
  take_all, ℕ, suc, ◌≤◌, ◌<◌, String, ◌≡◌, refl, sym, ◌∙◌, inl, inr, true, false, List, [], ◌∷◌,
  map, select, arith, length, All, Has, leb, ◌==◌, Bool-cases,
}
use auth_profile_service.Database.World.{OutboxRow, World}
use auth_profile_service.Security.Settings.{Settings}
use auth_profile_service.Messaging.Outbox.{
  Fate, insert_by_time, order_by_time, undispatched, batch, mark, publish, marked, dispatch_batch,
}
use auth_profile_service.Messaging.Progress.{IsMarked, poll_delivers}
use auth_profile_service.Platform.Relay.{dispatch_batch-P}

abbrev ids : List OutboxRow → List String
ids = map (λ (r : OutboxRow). r.id)

-- The rows that are not marked have ids from a list.
abbrev IsWithin : List String → List OutboxRow → Type 0
IsWithin ks = All (λ (r : OutboxRow). r.dispatched ≡ false → Has r.id ks)

IsWithin-mark :
    (ks : List String) (now : ℕ) (id : String) (rows : List OutboxRow)
    → IsWithin ks rows
    → IsWithin ks (mark now id rows)
unfolding mark
IsWithin-mark ks now id [] h = tt
IsWithin-mark ks now id (r ∷ rows) h = elim (Bool-cases (r.id == id)) [
  | inl e ↦ rw e ((λ f. cc), IsWithin-mark ks now id rows h.1)
  | inr e ↦ rw e (h.0, IsWithin-mark ks now id rows h.1)
]

IsWithin-mono :
    (ks ls : List String) (rows : List OutboxRow)
    → ((k : String) → Has k ks → Has k ls)
    → IsWithin ks rows
    → IsWithin ls rows
IsWithin-mono ks ls [] f h = tt
IsWithin-mono ks ls (r ∷ rows) f h = (λ e. f r.id (h.0 e), IsWithin-mono ks ls rows f h.1)

undispatched_marked :
    (r : OutboxRow) (rows : List OutboxRow)
    → r.dispatched ≡ true
    → undispatched (r ∷ rows) ≡ undispatched rows
unfolding undispatched select
undispatched_marked r rows e = rw e

undispatched_unmarked :
    (r : OutboxRow) (rows : List OutboxRow)
    → r.dispatched ≡ false
    → undispatched (r ∷ rows) ≡ r ∷ undispatched rows
unfolding undispatched select
undispatched_unmarked r rows e = simp e

IsWithin-undispatched : (rows : List OutboxRow) → IsWithin (ids (undispatched rows)) rows
IsWithin-undispatched [] = tt
IsWithin-undispatched (r ∷ rows) = elim (Bool-cases r.dispatched) [
  | inl e ↦
      subst (λ us. IsWithin (ids us) (r ∷ rows)) (sym (undispatched_marked r rows e))
        ((λ f. cc, IsWithin-undispatched rows))
  | inr e ↦
      subst (λ us. IsWithin (ids us) (r ∷ rows)) (sym (undispatched_unmarked r rows e))
        ((
          λ f. inl refl,
          IsWithin-mono (ids (undispatched rows)) (r.id ∷ ids (undispatched rows)) rows (λ k. inr)
              (IsWithin-undispatched rows),
        ))
]

Has-insert :
    (k : String) (r : OutboxRow) (rows : List OutboxRow)
    → Has k (r.id ∷ ids rows)
    → Has k (ids (insert_by_time r rows))
unfolding insert_by_time
Has-insert k r [] h = h
Has-insert k r (x ∷ rows) h = elim (Bool-cases (leb r.created_at x.created_at)) [
  | inl e ↦ rw e h
  | inr e ↦ rw e (elim h [
    | inl f ↦ inr (Has-insert k r rows (inl f))
    | inr (inl f) ↦ inl f
    | inr (inr f) ↦ inr (Has-insert k r rows (inr f))
  ])
]

Has-order :
    (k : String) (rows : List OutboxRow) → Has k (ids rows) → Has k (ids (order_by_time rows))
unfolding order_by_time
Has-order k [] h = h
Has-order k (r ∷ rows) (inl e) = Has-insert k r (order_by_time rows) (inl e)
Has-order k (r ∷ rows) (inr h) = Has-insert k r (order_by_time rows) (inr (Has-order k rows h))

length-insert :
    (r : OutboxRow) (rows : List OutboxRow) → length (insert_by_time r rows) ≡ suc (length rows)
unfolding insert_by_time
length-insert r [] = refl
length-insert r (x ∷ rows) = ground (arith, length-insert r rows)

length-order : (rows : List OutboxRow) → length (order_by_time rows) ≡ length rows
unfolding order_by_time
length-order [] = refl
length-order (r ∷ rows) = rw (length-insert r (order_by_time rows), length-order rows)

batch_full :
    (n : ℕ) (rows : List OutboxRow)
    → length (undispatched rows) ≤ n
    → order_by_time (undispatched rows) ≡ batch n rows
unfolding batch
batch_full n rows room = sym (
    take_all n (order_by_time (undispatched rows))
      (omega (arith, room, length-order (undispatched rows))))

IsWithin-batch :
    (n : ℕ) (rows : List OutboxRow)
    → length (undispatched rows) ≤ n
    → IsWithin (ids (batch n rows)) rows
IsWithin-batch n rows room =
    subst (λ us. IsWithin (ids us) rows) (batch_full n rows room)
      (IsWithin-mono (ids (undispatched rows)) (ids (order_by_time (undispatched rows))) rows
        (λ k. Has-order k (undispatched rows)) (IsWithin-undispatched rows))

-- Rows whose ids are all in a batch of marked rows are marked.
marked_where_within :
    (r : OutboxRow) (rows : List OutboxRow)
    → All (λ (x : OutboxRow). r.id ≡ x.id → r.dispatched ≡ true) rows
    → Has r.id (ids rows)
    → r.dispatched ≡ true
marked_where_within r [] h k = elim k [ ]
marked_where_within r (x ∷ rows) h (inl e) = h.0 (sym e)
marked_where_within r (x ∷ rows) h (inr k) = marked_where_within r rows h.1 k

module _ (isoformat : ℕ → String) (s : Settings) where
  heads :
      (r : OutboxRow) (table rows : List OutboxRow)
      → All (IsMarked isoformat s (r ∷ table)) rows
      → All (λ (x : OutboxRow). r.id ≡ x.id → r.dispatched ≡ true) rows
        × All (IsMarked isoformat s table) rows
  heads r table [] h = (tt, tt)
  heads r table (x ∷ rows) h =
      let (first, rest) = heads r table rows h.1 in ((h.0.0, first), (h.0.1, rest))

  none_left :
      (rows table : List OutboxRow)
      → All (IsMarked isoformat s table) rows
      → IsWithin (ids rows) table
      → undispatched table ≡ []
  none_left rows [] h k = unfold undispatched select in refl
  none_left rows (r ∷ table) h k =
      let (first, rest) = heads r table rows h in
      elim (Bool-cases r.dispatched) [
        | inl e ↦ undispatched_marked r table e ∙ none_left rows table rest k.1
        | inr e ↦
            undispatched_marked r table (marked_where_within r rows first (k.0 e))
            ∙ none_left rows table rest k.1
      ]

  module _ (fate : String → Fate) (delivers : (id : String) → fate id ≡ Fate.delivered)
      (now : ℕ) where
    -- A poll whose batch has room for every row that is not marked leaves none, if all are delivered.
    pub poll_empties :
        (w : World)
        → length (undispatched w.outbox) ≤ s.outbox_batch_size
        → 0 < s.outbox_batch_size
        → undispatched (dispatch_batch isoformat s fate now w).outbox ≡ []
    poll_empties w room pos =
        let rows = batch s.outbox_batch_size w.outbox in
        none_left rows (dispatch_batch isoformat s fate now w).outbox
          (poll_delivers isoformat s fate delivers now w pos).0
          (dispatch_batch-P isoformat s (λ x. IsWithin (ids rows) x.outbox)
            (unfold marked in λ now id x h. IsWithin-mark (ids rows) now id x.outbox h)
            (unfold publish in λ m x h. h) fate now w
            (IsWithin-batch s.outbox_batch_size w.outbox room))
