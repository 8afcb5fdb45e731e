-- ===== src/Tests/Workers.antt =====
-- An example of a pass of the worker over the application's consumers.
use leadto_sales_re.Base.{String, none, some, [], ◌∷◌}
use leadto_sales_re.Event.{message_received}
use leadto_sales_re.Result.{Error, err, external_error}
use leadto_sales_re.Database.{Database, OutboxEventRow}
use leadto_sales_re.EventBus.{drain_batch, outbox_row}
use leadto_sales_re.EventBus.Inbox.{IsUnique}
use leadto_sales_re.Conversation.State.{new}
use leadto_sales_re.Conversation.Model.{OwnerType}
use leadto_sales_re.Conversation.ChatwootClient.{Attempt}
use leadto_sales_re.Worker.{Surroundings, registry}
use leadto_sales_re.Worker.Consumers.{application_inbox-IsUnique}
use leadto_sales_re.Tests.{clock, chat_db, patterns, respond}
use leadto_sales_re.Tests.Leads.{client}
use leadto_sales_re.Tests.Organizations.{python, get_once}
use leadto_sales_re.Tests.Recommendations.{service, decimal}

abbrev surroundings : Surroundings
surroundings = record {
  clock = clock;
  patterns = patterns;
  respond = respond;
  rstrip = λ url. url;
  answers = λ request attempt. Attempt.accepted;
  python = python;
  connect = λ config. record {
    get_deals = get_once;
    get_deal = λ id. err (external_error "down");
    patch_deal = λ id body. err (external_error "down");
  };
  client = client;
  stale_after = 900;
  parts = service none 60;
  decimal = decimal;
}

abbrev hola : OutboxEventRow
hola = outbox_row (record {
  event_id = 4;
  occurred_at = 6;
  organization_id = some 7;
  fields = message_received 1 "c-1" "lead" "hola" 6;
})

abbrev message : String → Error → String
message consumer e = consumer

abbrev db : Database
db = record (chat_db new OwnerType.ai) { outbox_events = hola ∷ [] }

application_inbox-IsUnique_example :
    IsUnique (drain_batch message 9 (registry surroundings) 10 db).1.inbox_records
application_inbox-IsUnique_example = application_inbox-IsUnique surroundings message 9 10 db tt
