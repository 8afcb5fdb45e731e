-- ===== src/Tests/Events.antt =====
-- Examples of the event bus's theorems at a concrete registry and outbox.
use leadto_sales_re.Base.{String, ◌≡◌, refl, ◌⊎◌, some, [], ◌∷◌}
use leadto_sales_re.Event.{organization_created}
use leadto_sales_re.Result.{Error, ok, err, external_error}
use leadto_sales_re.Database.{Database, OutboxEventRow, empty}
use leadto_sales_re.EventBus.{
  Registration, Registry, dispatch_row, write_row, processed, failed_attempt, outbox_row,
}
use leadto_sales_re.EventBus.Dispatch.{Outcome, row_of, dispatch_row-Outcome, dispatch_row_once}

abbrev works : Registration
works = record {
  event_type = "OrganizationCreated";
  consumer_name = "a";
  handler = λ o f db. (ok tt, db);
}

abbrev fails : Registration
fails = record {
  event_type = "OrganizationCreated";
  consumer_name = "b";
  handler = λ o f db. (err (external_error "down"), db);
}

abbrev registry : Registry
registry = works ∷ fails ∷ []

abbrev message : String → Error → String
message c e = c

abbrev created : OutboxEventRow
created = outbox_row (record {
  event_id = 4;
  occurred_at = 6;
  organization_id = some 7;
  fields = organization_created "Acme";
})

abbrev db : Database
db = record empty { outbox_events = created ∷ [] }

dispatch_row-Outcome_example :
    Outcome 9 4 registry created (dispatch_row message 9 created registry db)
dispatch_row-Outcome_example =
    dispatch_row-Outcome message 9 created registry created db
      (
        record { inbox = λ o f x. refl; row = λ o f x. refl },
        (record { inbox = λ o f x. refl; row = λ o f x. refl }, tt),
      )
      refl

dispatch_row_once_example :
    let db' = dispatch_row message 9 created registry db in
    (dispatch_row message 12 created registry db' ≡ write_row 4 (processed 12) db')
    ⊎ ((m : String) × (row_of 4 db' ≡ some (failed_attempt m created)))
dispatch_row_once_example =
    dispatch_row_once message 9 created registry 12 created db
      (
        record { inbox = λ o f x. refl; row = λ o f x. refl },
        (record { inbox = λ o f x. refl; row = λ o f x. refl }, tt),
      )
      refl
