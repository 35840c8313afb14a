-- ===== src/Messaging/Delivery.antt =====
-- outbox_dispatcher.py: no event of the outbox is lost on the way to Kafka.
use auth_profile_service.Common.{
  ℕ, String, ◌≡◌, refl, true, not, none, List, [], ◌∷◌, ◌++◌, map, arith, eq_iff, All, Has, sym,
  ◌≢◌, Has-append, Has-end, All-select, All-take, ◌⊎◌, inl, inr, ◌∙◌,
}
use auth_profile_service.Database.Tables.{Unique, find}
use auth_profile_service.Database.World.{OutboxRow, Published, World}
use auth_profile_service.Security.Settings.{Settings}
use auth_profile_service.Messaging.Outbox.{
  Fate, insert_by_time, order_by_time, undispatched, batch, mark, publish, marked, message_of,
  dispatch_rows, dispatch_batch, run_loop,
}

pub Fate-cases :
    (f : Fate)
    → (f ≡ Fate.delivered) ⊎ ((f ≡ Fate.unmarked) ⊎ ((f ≡ Fate.unsent) ⊎ (f ≡ Fate.escaped)))
Fate-cases Fate.delivered = inl refl
Fate-cases Fate.unmarked = inr (inl refl)
Fate-cases Fate.unsent = inr (inr (inl refl))
Fate-cases Fate.escaped = inr (inr (inr refl))

module _ (isoformat : ℕ → String) (s : Settings) where
  abbrev message : OutboxRow → Published
  message = message_of isoformat s

  -- Every row that is marked was published.
  abbrev pub IsAccounted : World → Type 0
  IsAccounted w = All (λ (r : OutboxRow). r.dispatched ≡ true → Has (message r) w.kafka) w.outbox

  -- The rows of a table with the id of this one have its message.
  abbrev Carries : List OutboxRow → OutboxRow → Type 0
  Carries rows row = All (λ (r : OutboxRow). r.id ≡ row.id → message r ≡ message row) rows

  pub accounted_more :
      (rows : List OutboxRow) (kafka : List Published) (m : Published)
      → All (λ (r : OutboxRow). r.dispatched ≡ true → Has (message r) kafka) rows
      → All (λ (r : OutboxRow). r.dispatched ≡ true → Has (message r) (kafka ++ m ∷ [])) rows
  accounted_more [] kafka m h = tt
  accounted_more (r ∷ rows) kafka m h =
      (λ d. Has-append (message r) kafka (m ∷ []) (h.0 d), accounted_more rows kafka m h.1)

  accounted_mark :
      (now : ℕ) (row : OutboxRow) (rows : List OutboxRow) (kafka : List Published)
      → Carries rows row
      → Has (message row) kafka
      → All (λ (r : OutboxRow). r.dispatched ≡ true → Has (message r) kafka) rows
      → All (λ (r : OutboxRow). r.dispatched ≡ true → Has (message r) kafka) (mark now row.id rows)
  unfolding mark message_of
  accounted_mark now row [] kafka c m h = tt
  accounted_mark now row (r ∷ rows) kafka c m h =
      ground (arith, accounted_mark now row rows kafka c.1 m h.1, eq_iff r.id row.id)

  message-mark :
      (now : ℕ) (id : String) (rows : List OutboxRow)
      → map message (mark now id rows) ≡ map message rows
  unfolding mark message_of
  message-mark now id [] = refl
  message-mark now id (r ∷ rows) = ground (arith, message-mark now id rows)

  Carries-mark :
      (now : ℕ) (id : String) (row : OutboxRow) (rows : List OutboxRow)
      → Carries rows row
      → Carries (mark now id rows) row
  unfolding mark message_of
  Carries-mark now id row [] c = tt
  Carries-mark now id row (r ∷ rows) c = ground (arith, Carries-mark now id row rows c.1)

  carried_mark :
      (now : ℕ) (id : String) (table rows : List OutboxRow)
      → All (Carries table) rows
      → All (Carries (mark now id table)) rows
  carried_mark now id table [] c = tt
  carried_mark now id table (row ∷ rows) c =
      (Carries-mark now id row table c.0, carried_mark now id table rows c.1)

  absent :
      (k : String) (rows : List OutboxRow)
      → find (λ r. r.id) k rows ≡ none
      → All (λ (r : OutboxRow). r.id ≢ k) rows
  unfolding find
  absent k [] h = tt
  absent k (r ∷ rows) h = ground (arith, absent k rows, eq_iff r.id k)

  Carries-absent :
      (row : OutboxRow) (rows : List OutboxRow)
      → All (λ (r : OutboxRow). r.id ≢ row.id) rows
      → Carries rows row
  Carries-absent row [] h = tt
  Carries-absent row (r ∷ rows) h = (λ e. elim (h.0 e) [ ], Carries-absent row rows h.1)

  Carries-cons :
      (r : OutboxRow) (table rows : List OutboxRow)
      → All (λ (x : OutboxRow). x.id ≢ r.id) rows
      → All (Carries table) rows
      → All (Carries (r ∷ table)) rows
  Carries-cons r table [] h c = tt
  Carries-cons r table (x ∷ rows) h c =
      ((λ e. elim (h.0 (sym e)) [ ], c.0), Carries-cons r table rows h.1 c.1)

  -- Where the ids are unique, each row carries its own message.
  carried : (rows : List OutboxRow) → Unique (λ r. r.id) rows → All (Carries rows) rows
  carried [] u = tt
  carried (r ∷ rows) u =
      let others = absent r.id rows u.0 in
      (
        (λ e. refl, Carries-absent r rows others),
        Carries-cons r rows rows others (carried rows u.1),
      )

  All-insert :
      (P : OutboxRow → Type 0) (r : OutboxRow) (rows : List OutboxRow)
      → P r
      → All P rows
      → All P (insert_by_time r rows)
  unfolding insert_by_time
  All-insert P r [] p h = (p, tt)
  All-insert P r (x ∷ rows) p h = ground (arith, All-insert P r rows p h.1)

  All-order :
      (P : OutboxRow → Type 0) (rows : List OutboxRow) → All P rows → All P (order_by_time rows)
  unfolding order_by_time
  All-order P [] h = tt
  All-order P (r ∷ rows) h = All-insert P r (order_by_time rows) h.0 (All-order P rows h.1)

  All-batch :
      (P : OutboxRow → Type 0) (n : ℕ) (rows : List OutboxRow) → All P rows → All P (batch n rows)
  unfolding batch undispatched
  All-batch P n rows h =
      All-take P n (order_by_time (undispatched rows)) (
        All-order P (undispatched rows) (All-select P (λ (r : OutboxRow). not r.dispatched) rows h))

  -- What a dispatch keeps: the rows and their messages, and that the marked ones were published.
  abbrev Ids : List OutboxRow → Type 0
  Ids = Unique (λ r. r.id)

  abbrev Kept : World → World → Type 0
  Kept w w' =
      (map message w'.outbox ≡ map message w.outbox)
      × IsAccounted w'
      × (Ids w.outbox → Ids w'.outbox)

  find-mark :
      (now : ℕ) (id k : String) (rows : List OutboxRow)
      → find (λ r. r.id) k rows ≡ none
      → find (λ r. r.id) k (mark now id rows) ≡ none
  unfolding find mark
  find-mark now id k [] h = refl
  find-mark now id k (r ∷ rows) h = ground (arith, find-mark now id k rows)

  Ids-mark : (now : ℕ) (id : String) (rows : List OutboxRow) → Ids rows → Ids (mark now id rows)
  unfolding mark
  Ids-mark now id [] u = tt
  Ids-mark now id (r ∷ rows) u =
      ground (arith, Ids-mark now id rows u.1, find-mark now id r.id rows u.0)

  dispatch_rows-Kept :
      (fate : String → Fate) (now : ℕ) (rows : List OutboxRow) (w : World)
      → All (Carries w.outbox) rows
      → IsAccounted w
      → Kept w (dispatch_rows isoformat s fate now rows w)
  unfolding dispatch_rows publish marked
  dispatch_rows-Kept fate now [] w c h = (refl, h, λ u. u)
  dispatch_rows-Kept fate now (row ∷ rows) w c h =
      let sent = publish (message row) w in
      let more = accounted_more w.outbox w.kafka (message row) h in
      elim (Fate-cases (fate row.id)) [
        | inl e ↦
            rw (e, dispatch_rows)
              (let rest =
                  dispatch_rows-Kept fate now rows (marked now row.id sent)
                    (carried_mark now row.id w.outbox rows c.1)
                    (accounted_mark now row w.outbox sent.kafka c.0 (Has-end (message row) w.kafka)
                      more) in
                (
                  rest.0 ∙ message-mark now row.id w.outbox,
                  rest.1,
                  λ u. rest.2 (Ids-mark now row.id w.outbox u),
                ))
        | inr (inl e) ↦ rw (e, dispatch_rows) (dispatch_rows-Kept fate now rows sent c.1 more)
        | inr (inr (inl e)) ↦ rw (e, dispatch_rows) (dispatch_rows-Kept fate now rows w c.1 h)
        | inr (inr (inr e)) ↦ rw (e, dispatch_rows) (refl, h, λ u. u)
      ]

  -- From a state where every row that is marked was published, and where the ids are unique: whatever
  -- happens to the publishing and to the commits in any polls, the outbox has the same rows with the
  -- same messages in the same order, every row that is marked was published, and the ids are unique.
  pub run_loop-Kept :
      (polls : List ((String → Fate) × ℕ)) (w : World)
      → Unique (λ r. r.id) w.outbox
      → IsAccounted w
      → let w' = run_loop isoformat s polls w in
        (map message w'.outbox ≡ map message w.outbox)
        × IsAccounted w'
        × Unique (λ r. r.id) w'.outbox
  unfolding run_loop dispatch_batch
  run_loop-Kept [] w u h = (refl, h, u)
  run_loop-Kept ((fate, now) ∷ polls) w u h =
      let one =
        dispatch_rows-Kept fate now (batch s.outbox_batch_size w.outbox) w
          (All-batch (Carries w.outbox) s.outbox_batch_size w.outbox (carried w.outbox u)) h in
      let rest = run_loop-Kept polls (dispatch_batch isoformat s fate now w) (one.2 u) one.1 in
      (rest.0 ∙ one.0, rest.1, rest.2)
