-- ===== src/Tests/Inbound.antt =====
-- Examples of the webhook, the linker and the scan for silent conversations.
use leadto_sales_re.Base.{
  ℕ, ◌+◌, ◌*◌, ◌≡◌, refl, ◌≢◌, ◌⊎◌, true, false, none, [], ◌∷◌, ◌++◌, map, select, All,
}
use leadto_sales_re.Event.{Stamp}
use leadto_sales_re.Result.{ok}
use leadto_sales_re.Database.{ArchivedMessageRow}
use leadto_sales_re.Session.{fresh}
use leadto_sales_re.EventBus.{outbox_row}
use leadto_sales_re.Conversation.State.{new, qualification, state_of_value, active_states}
use leadto_sales_re.Conversation.Model.{OwnerType, channel_of_value, owner_of_value}
use leadto_sales_re.Conversation.Repository.{get_by_chatwoot_id, to_domain}
use leadto_sales_re.Lead.Repository.{has_contact}
use leadto_sales_re.Conversation.LeadLinker.{link_if_possible}
use leadto_sales_re.Conversation.LeadLinker.Match.{IsMatch, link_if_possible-IsMatch}
use leadto_sales_re.Json.{Json, str, num, obj, end, field, get_field, truthy, dig}
use leadto_sales_re.Conversation.Decay.{
  decay_inactive_conversations, decay_inactive_conversations_outcome, IsSilent, dormancy_events,
}
use leadto_sales_re.Conversation.Webhook.{
  Python, Message, Status, receive_chatwoot_webhook, read_message,
}
use leadto_sales_re.Conversation.Webhook.Outcome.{
  Accepts, message, receive_chatwoot_webhook_again, receive_chatwoot_webhook_outcome,
}
use leadto_sales_re.Tests.{clock, chat, chat_db, lead_db}

-- A clock past the threshold of one hour.
abbrev pub late : ℕ → Stamp
late k = record { new_id = 100 + k; now = 4000000000 + k }

abbrev pub python : Python
python = record {
  to_text = λ v. "c-1";
  lower = λ s. s;
  contains = λ a b. false;
  from_timestamp = λ n. ok (n * 1000000);
  from_iso_format = λ s. none;
}

abbrev pub hello : Json
hello = obj (
    field "event" (str "message_created") (
      field "message_type" (str "incoming") (
        field "id" (num 9) (
          field "content" (str "hola") (field "conversation" (obj (field "id" (num 1) end)) end)))))

decay_inactive_conversations_outcome_example :
    let db = chat_db qualification OwnerType.ai in
    let (r, s') = decay_inactive_conversations late 1 (fresh db) in
    (r ≡ ok 1)
    × All (IsSilent 400000000) (chat qualification OwnerType.ai ∷ [])
    × (s'.working.outbox_events
        ≡ db.outbox_events
          ++ map outbox_row
              (dormancy_events (λ k. late (k + 1)) (chat qualification OwnerType.ai ∷ [])))
unfolding to_domain state_of_value channel_of_value owner_of_value active_states
decay_inactive_conversations_outcome_example =
    decay_inactive_conversations_outcome late 1 (fresh (chat_db qualification OwnerType.ai))
      (chat qualification OwnerType.ai ∷ []) refl

receive_chatwoot_webhook_outcome_example :
    let db = chat_db qualification OwnerType.ai in
    let (r, db') = receive_chatwoot_webhook python clock 7 hello db in
    ((r ≢ ok Status.accepted) × (db' ≡ db))
    ⊎ ((r ≡ ok Status.accepted)
        × Accepts python clock 7 hello (message python clock 7 hello) db db')
receive_chatwoot_webhook_outcome_example =
    receive_chatwoot_webhook_outcome python clock 7 hello (chat_db qualification OwnerType.ai)

link_if_possible-IsMatch_example :
    IsMatch
      (chat new OwnerType.ai)
      (select (has_contact 7 "+34600") lead_db.leads)
      (link_if_possible (chat new OwnerType.ai) (fresh lead_db)).0
link_if_possible-IsMatch_example =
    link_if_possible-IsMatch (chat new OwnerType.ai) "+34600" (fresh lead_db) refl refl refl

abbrev pub archived_hello : ArchivedMessageRow
archived_hello = record {
  id = 50;
  organization_id = 7;
  conversation_id = 1;
  chatwoot_message_id = "c-1";
  sender = "lead";
  content = "hola";
  raw_payload = hello;
  message_timestamp = 15;
  archived_at = 16;
}

abbrev hello_message : Message
hello_message = record {
  chatwoot_conversation_id = "c-1";
  chatwoot_message_id = "c-1";
  text = "hola";
  is_storable = true;
  sender = "lead";
  created_at = 1000;
}

receive_chatwoot_webhook_again_example :
    let db = record (chat_db qualification OwnerType.ai) {
      archived_messages = archived_hello ∷ [];
    } in
    let (r, db') = receive_chatwoot_webhook python clock 7 hello db in
    (r ≢ ok Status.accepted) × (db' ≡ db)
unfolding to_domain state_of_value channel_of_value owner_of_value get_by_chatwoot_id read_message
    get_field truthy dig
receive_chatwoot_webhook_again_example =
    receive_chatwoot_webhook_again python clock 7 hello
      (record (chat_db qualification OwnerType.ai) { archived_messages = archived_hello ∷ [] })
      hello_message (chat qualification OwnerType.ai) archived_hello [] refl refl refl
