-- ===== src/EventBus/Dispatch.antt =====
-- What the dispatch of one outbox row leaves behind.
use leadto_sales_re.Base.{
  ℕ, String, ◌≡◌, refl, sym, subst, ◌⊎◌, inl, inr, true, false, Option, some, List, [], ◌∷◌, ◌++◌,
  arith, eq_refl, Bool-cases, any-append_left, All,
}
use leadto_sales_re.Base.Table.{get_row, get_row-set_row_self}
use leadto_sales_re.Event.{EventFields}
use leadto_sales_re.Result.{Result, Error, ok, err}
use leadto_sales_re.Database.{Database, OutboxEventRow, InboxRow}
use leadto_sales_re.EventBus.{
  Registration, Registry, handlers_for, already_done, is_record_of, add_inbox, after_handler,
  run_handlers, dispatch_row, event_key, write_row, processed, failed_attempt,
}

-- The outbox row of an event.
abbrev pub row_of : ℕ → Database → Option OutboxEventRow
row_of event db = get_row event_key event db.outbox_events

-- A handler leaves the worker's inbox alone, and of the outbox the row that is being dispatched.
pub record KeepsBus (event : ℕ) (r : Registration) : Type 0 where
  pub inbox :
      (o : Option ℕ) (f : EventFields) (db : Database)
      → (r.handler o f db).1.inbox_records ≡ db.inbox_records
  pub row :
      (o : Option ℕ) (f : EventFields) (db : Database)
      → row_of event (r.handler o f db).1 ≡ row_of event db

-- The consumer has a record for the event.
abbrev pub IsDone : ℕ → Database → Registration → Type 0
IsDone event db r = already_done r.consumer_name event db.inbox_records ≡ true

already_done-append_self :
    (c : String) (e now : ℕ) (t : List InboxRow)
    → already_done c e (t ++ record { consumer_name = c; event_id = e; processed_at = now } ∷ [])
      ≡ true
already_done-append_self c e now [] = ground (arith, eq_refl c)
already_done-append_self c e now (x ∷ t) = ground (arith, already_done-append_self c e now t)

-- The row is processed and every consumer is recorded, or it waits for the next pass with one more
-- attempt and an error text.
abbrev pub Outcome : ℕ → ℕ → List Registration → OutboxEventRow → Database → Type 0
Outcome now event rs x db =
    ((row_of event db ≡ some (processed now x)) × All (IsDone event db) rs)
    ⊎ ((m : String) × (row_of event db ≡ some (failed_attempt m x)))

module _ (message : String → Error → String) (now : ℕ) (row : OutboxEventRow) where
  after_handler_keeps :
      (c d : String) (rest : Database → Database) (o : Result (Unit {0}) × Database)
      → already_done d row.event_id o.1.inbox_records ≡ true
      → ((db : Database)
          → already_done d row.event_id db.inbox_records ≡ true
          → already_done d row.event_id (rest db).inbox_records ≡ true)
      → already_done d row.event_id (after_handler message now row c rest o).inbox_records ≡ true
  after_handler_keeps c d rest (ok _, db) h step =
      step (add_inbox c row.event_id now db)
        (any-append_left (is_record_of d row.event_id) db.inbox_records _ h)
  after_handler_keeps c d rest (err e, db) h step = h

  -- A consumer's record is never lost.
  pub run_handlers_keeps :
      (d : String) (rs : List Registration) (db : Database)
      → All (KeepsBus row.event_id) rs
      → already_done d row.event_id db.inbox_records ≡ true
      → already_done d row.event_id (run_handlers message now row rs db).inbox_records ≡ true
  unfolding run_handlers
  run_handlers_keeps d [] db k h = h
  run_handlers_keeps d (r ∷ rs) db k h =
      elim (Bool-cases (already_done r.consumer_name row.event_id db.inbox_records)) [
        | inl seen ↦ rw seen (run_handlers_keeps d rs db k.1 h)
        | inr unseen ↦ rw unseen (
            after_handler_keeps r.consumer_name d (run_handlers message now row rs)
              (r.handler row.organization_id row.payload db)
              (rw (k.0.inbox row.organization_id row.payload db) h)
              (λ db' h'. run_handlers_keeps d rs db' k.1 h'))
      ]

  after_handler-Outcome :
      (r : Registration) (rs : List Registration) (x : OutboxEventRow)
      (o : Result (Unit {0}) × Database)
      → All (KeepsBus row.event_id) rs
      → row_of row.event_id o.1 ≡ some x
      → ((db : Database)
          → row_of row.event_id db ≡ some x
          → Outcome now row.event_id rs x (run_handlers message now row rs db))
      → Outcome now row.event_id
          (r ∷ rs)
          x
          (after_handler message now row r.consumer_name (run_handlers message now row rs) o)
  after_handler-Outcome r rs x (ok _, db) k h step =
      let db' = add_inbox r.consumer_name row.event_id now db in
      let mine = already_done-append_self r.consumer_name row.event_id now db.inbox_records in
      elim (step db' h) [
        | inl (e, all) ↦ inl (e, (run_handlers_keeps r.consumer_name rs db' k mine, all))
        | inr (m, e) ↦ inr (m, e)
      ]
  after_handler-Outcome r rs x (err e, db) k h step = inr (
    message r.consumer_name e,
    get_row-set_row_self event_key row.event_id (failed_attempt (message r.consumer_name e))
        db.outbox_events refl h,
  )

  run_handlers_seen :
      (r : Registration) (rs : List Registration) (db : Database)
      → already_done r.consumer_name row.event_id db.inbox_records ≡ true
      → run_handlers message now row (r ∷ rs) db ≡ run_handlers message now row rs db
  unfolding run_handlers
  run_handlers_seen r rs db h = rw h

  run_handlers_unseen :
      (r : Registration) (rs : List Registration) (db : Database)
      → already_done r.consumer_name row.event_id db.inbox_records ≡ false
      → run_handlers message now row (r ∷ rs) db
        ≡ after_handler message now row r.consumer_name
            (run_handlers message now row rs)
            (r.handler row.organization_id row.payload db)
  unfolding run_handlers
  run_handlers_unseen r rs db h = rw h

  pub run_handlers-Outcome :
      (rs : List Registration) (x : OutboxEventRow) (db : Database)
      → All (KeepsBus row.event_id) rs
      → row_of row.event_id db ≡ some x
      → Outcome now row.event_id rs x (run_handlers message now row rs db)
  run_handlers-Outcome [] x db k h =
      unfold run_handlers in
      inl (get_row-set_row_self event_key row.event_id (processed now) db.outbox_events refl h, tt)
  run_handlers-Outcome (r ∷ rs) x db k h =
      elim (Bool-cases (already_done r.consumer_name row.event_id db.inbox_records)) [
        | inl seen ↦
            subst (Outcome now row.event_id (r ∷ rs) x) (sym (run_handlers_seen r rs db seen))
              (elim (run_handlers-Outcome rs x db k.1 h) [
                | inl (e, all) ↦ inl (e, (run_handlers_keeps r.consumer_name rs db k.1 seen, all))
                | inr (m, e) ↦ inr (m, e)
              ])
        | inr unseen ↦
            subst (Outcome now row.event_id (r ∷ rs) x) (sym (run_handlers_unseen r rs db unseen)) (
              after_handler-Outcome r rs x (r.handler row.organization_id row.payload db) k.1
                (rw (k.0.row row.organization_id row.payload db) h)
                (λ db' h'. run_handlers-Outcome rs x db' k.1 h'))
      ]

  -- An event whose consumers are all recorded already is marked processed, and no handler runs:
  -- nothing but the row's time of processing changes.
  pub run_handlers_redelivery :
      (rs : List Registration) (db : Database)
      → All (IsDone row.event_id db) rs
      → run_handlers message now row rs db ≡ write_row row.event_id (processed now) db
  unfolding run_handlers
  run_handlers_redelivery [] db h = refl
  run_handlers_redelivery (r ∷ rs) db h = rw h.0 (run_handlers_redelivery rs db h.1)

module _ (message : String → Error → String) (now : ℕ) (row : OutboxEventRow)
    (registry : Registry) where
  -- Under handlers that leave the inbox and the dispatched row alone: the dispatch of a row of the
  -- outbox either marks it processed, with a record for every consumer of its type, or leaves it
  -- unprocessed with one more attempt.
  pub dispatch_row-Outcome :
      (x : OutboxEventRow) (db : Database)
      → All (KeepsBus row.event_id) (handlers_for row.event_type registry)
      → row_of row.event_id db ≡ some x
      → Outcome now row.event_id
          (handlers_for row.event_type registry)
          x
          (dispatch_row message now row registry db)
  unfolding dispatch_row
  dispatch_row-Outcome = run_handlers-Outcome message now row (handlers_for row.event_type registry)

  -- Under handlers that leave the inbox and the dispatched row alone: after a dispatch of a row of
  -- the outbox, either a second dispatch of the event, at whatever time, runs no handler and only
  -- writes the time of processing again, or the first one left the row with one more attempt.
  pub dispatch_row_once :
      (later : ℕ) (x : OutboxEventRow) (db : Database)
      → All (KeepsBus row.event_id) (handlers_for row.event_type registry)
      → row_of row.event_id db ≡ some x
      → let db' = dispatch_row message now row registry db in
        (dispatch_row message later row registry db' ≡ write_row row.event_id (processed later) db')
        ⊎ ((m : String) × (row_of row.event_id db' ≡ some (failed_attempt m x)))
  dispatch_row_once later x db k h = elim (dispatch_row-Outcome x db k h) [
    | inl (e, all) ↦ inl (
        unfold dispatch_row in
        run_handlers_redelivery message later row (handlers_for row.event_type registry) _ all)
    | inr other ↦ inr other
  ]
