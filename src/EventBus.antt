-- ===== src/EventBus.antt =====
-- app/shared/infrastructure/event_bus.py: the transactional outbox and the worker that drains it.
-- A handler is what was registered for an event type. It opens sessions of its own, so it is a
-- function on the database: the worker's own writes go to the outbox and the inbox only.
pub mod Inbox
pub mod Dispatch
pub mod Order
use leadto_sales_re.Base.{
  ℕ, ◌+◌, String, Bool, ◌&&◌, not, Option, none, some, List, [], ◌∷◌, ◌++◌, map, str_eq, leb, ◌==◌,
  if◌then◌else◌, is_some, length, take, select, any,
}
use leadto_sales_re.Base.Table.{set_row}
use leadto_sales_re.Base.Sort.{sort}
use leadto_sales_re.Event.{DomainEvent, EventFields, event_type}
use leadto_sales_re.Result.{Result, Error, ok, err}
use leadto_sales_re.Database.{Database, OutboxEventRow, InboxRow}
use leadto_sales_re.Session.{Action, modify}

abbrev pub outbox_row : DomainEvent → OutboxEventRow
outbox_row e = record {
  event_id = e.event_id;
  event_type = event_type e.fields;
  organization_id = e.organization_id;
  payload = e.fields;
  occurred_at = e.occurred_at;
  processed_at = none;
  attempts = 0;
  last_error = none;
}

-- `publish(session, events)`: into the outbox of the caller's transaction.
unfoldable pub publish : List DomainEvent → Action (Unit {0})
publish events =
    modify (λ db. record db { outbox_events = db.outbox_events ++ map outbox_row events })

-- What `handler(row.payload)` does.
abbrev pub Handler : Type 0
Handler = Option ℕ → EventFields → Database → Result (Unit {0}) × Database

-- `register(event_type, consumer_name, handler)`
pub record Registration : Type 0 where
  pub event_type : String
  pub consumer_name : String
  pub handler : Handler

abbrev pub Registry : Type 0
Registry = List Registration

unfoldable pub register : Registration → Registry → Registry
register r registry = registry ++ r ∷ []

-- `self._handlers.get(event_type, [])`
abbrev pub handlers_for : String → Registry → List Registration
handlers_for type = select (λ (r : Registration). str_eq r.event_type type)

abbrev is_record_of : String → ℕ → InboxRow → Bool
is_record_of consumer event i = str_eq i.consumer_name consumer && i.event_id == event

-- `session.get(InboxRecordORM, (consumer_name, event_id)) is not None`
abbrev pub already_done : String → ℕ → List InboxRow → Bool
already_done consumer event = any (is_record_of consumer event)

abbrev pub event_key : OutboxEventRow → ℕ
event_key r = r.event_id

abbrev pub write_row : ℕ → (OutboxEventRow → OutboxEventRow) → Database → Database
write_row event f db = record db { outbox_events = set_row event_key event f db.outbox_events }

-- `row.attempts += 1; row.last_error = …`, with the text of the exception left to a parameter.
abbrev pub failed_attempt : String → OutboxEventRow → OutboxEventRow
failed_attempt message r = record r { attempts = r.attempts + 1; last_error = some message }

abbrev pub processed : ℕ → OutboxEventRow → OutboxEventRow
processed now r = record r { processed_at = some now }

abbrev pub add_inbox : String → ℕ → ℕ → Database → Database
add_inbox consumer event now db = record db {
  inbox_records =
      db.inbox_records
      ++ record { consumer_name = consumer; event_id = event; processed_at = now } ∷ [];
}

module _ (message : String → Error → String) (now : ℕ) (row : OutboxEventRow) where
  -- What follows the call of one handler: the rest of the loop, or the early return.
  abbrev after_handler : String → (Database → Database) → Result (Unit {0}) × Database → Database
  after_handler consumer rest (ok _, db) = rest (add_inbox consumer row.event_id now db)
  after_handler consumer rest (err e, db) =
      write_row row.event_id (failed_attempt (message consumer e)) db

  unfoldable pub run_handlers : List Registration → Database → Database
  run_handlers [] db = write_row row.event_id (processed now) db
  run_handlers (r ∷ rs) db =
      if already_done r.consumer_name row.event_id db.inbox_records
      then run_handlers rs db
      else after_handler r.consumer_name (run_handlers rs)
          (r.handler row.organization_id row.payload db)

  -- `_dispatch_row(session, row)`
  unfoldable pub dispatch_row : Registry → Database → Database
  unfolding run_handlers
  dispatch_row registry = run_handlers (handlers_for row.event_type registry)

abbrev pub not_later : OutboxEventRow → OutboxEventRow → Bool
not_later r s = leb r.occurred_at s.occurred_at

-- `order_by(occurred_at)`; rows of one instant keep the order of the table.
unfoldable pub order_by_time : List OutboxEventRow → List OutboxEventRow
order_by_time = sort not_later

abbrev pub unprocessed : List OutboxEventRow → List OutboxEventRow
unprocessed = select (λ (r : OutboxEventRow). not (is_some r.processed_at))

-- The rows that one pass of the worker reads.
unfoldable pub batch : ℕ → Database → List OutboxEventRow
unfolding order_by_time
batch batch_size db = take batch_size (order_by_time (unprocessed db.outbox_events))

module _ (message : String → Error → String) (now : ℕ) (registry : Registry) where
  unfoldable pub dispatch_rows : List OutboxEventRow → Database → Database
  unfolding dispatch_row
  dispatch_rows [] db = db
  dispatch_rows (r ∷ rs) db = dispatch_rows rs (dispatch_row message now r registry db)

  -- `_drain_batch(batch_size)`: the number of rows read, and the database after the pass.
  unfoldable pub drain_batch : ℕ → Database → ℕ × Database
  unfolding dispatch_rows batch
  drain_batch batch_size db = let rows = batch batch_size db in (length rows, dispatch_rows rows db)
