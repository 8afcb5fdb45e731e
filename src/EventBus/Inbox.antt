-- ===== src/EventBus/Inbox.antt =====
-- Each consumer handles an event at most once with success: the inbox has no duplicates.
use leadto_sales_re.Base.{
  ℕ, String, ◌≡◌, refl, inl, inr, Bool, false, ◌||◌, Option, List, [], ◌∷◌, ◌++◌, arith, str_eq,
  eq_iff, Bool-cases, select, All,
}
use leadto_sales_re.Event.{EventFields}
use leadto_sales_re.Result.{Result, Error, ok, err}
use leadto_sales_re.Database.{Database, OutboxEventRow, InboxRow}
use leadto_sales_re.EventBus.{
  Registration, Registry, handlers_for, already_done, is_record_of, add_inbox, after_handler,
  run_handlers, dispatch_row, dispatch_rows, drain_batch, batch,
}

-- A handler works on its own tables and leaves the worker's inbox alone.
abbrev pub KeepsInbox : Registration → Type 0
KeepsInbox r =
    (o : Option ℕ) (f : EventFields) (db : Database)
    → (r.handler o f db).1.inbox_records ≡ db.inbox_records

-- No two records of the same consumer and event: the table's primary key.
abbrev pub IsUnique : List InboxRow → Type 0
IsUnique [] = Unit
IsUnique (i ∷ t) = (already_done i.consumer_name i.event_id t ≡ false) × IsUnique t

already_done-append :
    (c : String) (e : ℕ) (t : List InboxRow) (i : InboxRow)
    → already_done c e (t ++ i ∷ []) ≡ (already_done c e t || is_record_of c e i)
already_done-append c e [] i = ground arith
already_done-append c e (x ∷ t) i = ground (arith, already_done-append c e t i)

is_record_of_sym :
    (i j : InboxRow)
    → is_record_of i.consumer_name i.event_id j ≡ is_record_of j.consumer_name j.event_id i
is_record_of_sym i j =
    ground (arith, eq_iff i.consumer_name j.consumer_name, eq_iff j.consumer_name i.consumer_name)

IsUnique-append :
    (t : List InboxRow) (i : InboxRow)
    → IsUnique t
    → already_done i.consumer_name i.event_id t ≡ false
    → IsUnique (t ++ i ∷ [])
IsUnique-append [] i u n = (refl, tt)
IsUnique-append (x ∷ t) i u n = ground (
  arith,
  IsUnique-append t i u.1,
  already_done-append x.consumer_name x.event_id t i,
  is_record_of_sym x i,
)

module _ (message : String → Error → String) (now : ℕ) (row : OutboxEventRow) where
  after_handler-IsUnique :
      (c : String) (rest : Database → Database) (o : Result (Unit {0}) × Database)
      → IsUnique o.1.inbox_records
      → already_done c row.event_id o.1.inbox_records ≡ false
      → ((db : Database) → IsUnique db.inbox_records → IsUnique (rest db).inbox_records)
      → IsUnique (after_handler message now row c rest o).inbox_records
  after_handler-IsUnique c rest (ok _, db) u n step = step (add_inbox c row.event_id now db) (
      IsUnique-append db.inbox_records
        (record { consumer_name = c; event_id = row.event_id; processed_at = now }) u n)
  after_handler-IsUnique c rest (err e, db) u n step = u

  pub run_handlers-IsUnique :
      (rs : List Registration) (db : Database)
      → All KeepsInbox rs
      → IsUnique db.inbox_records
      → IsUnique (run_handlers message now row rs db).inbox_records
  unfolding run_handlers
  run_handlers-IsUnique [] db k u = u
  run_handlers-IsUnique (r ∷ rs) db k u =
      let done = already_done r.consumer_name row.event_id db.inbox_records in
      let kept = k.0 row.organization_id row.payload db in
      elim (Bool-cases done) [
        | inl seen ↦ rw seen (run_handlers-IsUnique rs db k.1 u)
        | inr unseen ↦ rw unseen (
            after_handler-IsUnique r.consumer_name (run_handlers message now row rs)
              (r.handler row.organization_id row.payload db) (rw kept u) (rw kept unseen)
              (λ db' u'. run_handlers-IsUnique rs db' k.1 u'))
      ]

pub All-select {ℓ} :
    {A : Type 0} (P : A → Type ℓ) (p : A → Bool) (xs : List A) → All P xs → All P (select p xs)
All-select P p [] h = tt
All-select P p (x ∷ xs) h = elim (Bool-cases (p x)) [
  | inl e ↦ rw e (h.0, All-select P p xs h.1)
  | inr e ↦ rw e (All-select P p xs h.1)
]

module _ (message : String → Error → String) (now : ℕ) (registry : Registry) where
  dispatch_rows-IsUnique :
      (rows : List OutboxEventRow) (db : Database)
      → All KeepsInbox registry
      → IsUnique db.inbox_records
      → IsUnique (dispatch_rows message now registry rows db).inbox_records
  unfolding dispatch_rows dispatch_row
  dispatch_rows-IsUnique [] db k u = u
  dispatch_rows-IsUnique (row ∷ rows) db k u =
      let mine = λ (r : Registration). str_eq r.event_type row.event_type in
      dispatch_rows-IsUnique rows (dispatch_row message now row registry db) k (
        run_handlers-IsUnique message now row (handlers_for row.event_type registry) db
          (All-select KeepsInbox mine registry k) u)

  -- For handlers that leave the inbox alone: a pass of the worker, whatever rows it reads and
  -- whichever handlers raise, records no consumer's success for an event a second time.
  pub drain_batch-IsUnique :
      (batch_size : ℕ) (db : Database)
      → All KeepsInbox registry
      → IsUnique db.inbox_records
      → IsUnique (drain_batch message now registry batch_size db).1.inbox_records
  unfolding drain_batch
  drain_batch-IsUnique batch_size db = dispatch_rows-IsUnique (batch batch_size db) db
