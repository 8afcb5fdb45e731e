-- ===== src/Conversation/Repository.antt =====
-- app/modules/conversation_ownership/infrastructure/repository.py
pub mod RoundTrip
use leadto_sales_re.Base.{
  ℕ, String, Bool, true, false, ◌&&◌, Option, none, some, List, [], ◌∷◌, ◌++◌, str_eq, ltb, ◌==◌,
  opt_eq, is_some, select, any,
}
use leadto_sales_re.Base.Table.{get_row, set_row}
use leadto_sales_re.Event.{Stamp}
use leadto_sales_re.Json.{Json}
use leadto_sales_re.Result.{Result, ok, err, value_error}
use leadto_sales_re.Database.{ConversationRow, ArchivedMessageRow}
use leadto_sales_re.Session.{◌>>=◌, Action, pure, lift, gets, modify, ◌>>◌, scalar_one_or_none}
use leadto_sales_re.Conversation.State.{ConversationState, state_value, state_of_value}
use leadto_sales_re.Conversation.Model.{
  Conversation, Channel, OwnerType, channel_value, channel_of_value, owner_value, owner_of_value,
}
use leadto_sales_re.Conversation.Policy.{OwnershipDecision}

abbrev pub conversation_key : ConversationRow → ℕ
conversation_key r = r.id

-- `_to_row`
unfoldable pub to_row : Conversation → ConversationRow
to_row c = record {
  id = c.id;
  organization_id = c.organization_id;
  chatwoot_conversation_id = c.chatwoot_conversation_id;
  channel = channel_value c.channel;
  state = state_value c.state;
  contact_reference = c.contact_reference;
  lead_id = c.lead_id;
  owner_type = owner_value c.ownership.owner_type;
  owner_id = c.ownership.owner_id;
  owner_since = c.ownership.since;
  owner_reason = c.ownership.reason;
  last_contact_at = c.last_contact_at;
  created_at = c.created_at;
}

abbrev hydrate :
    ConversationRow
    → Option Channel
    → Option ConversationState
    → Option OwnerType
    → Result Conversation
hydrate row none s o = err (value_error "Channel")
hydrate row (some c) none o = err (value_error "ConversationState")
hydrate row (some c) (some s) none = err (value_error "OwnerType")
hydrate row (some c) (some s) (some o) = ok (record {
  id = row.id;
  organization_id = row.organization_id;
  chatwoot_conversation_id = row.chatwoot_conversation_id;
  channel = c;
  state = s;
  ownership = record {
    owner_type = o;
    owner_id = row.owner_id;
    since = row.owner_since;
    reason = row.owner_reason;
  };
  last_contact_at = row.last_contact_at;
  contact_reference = row.contact_reference;
  lead_id = row.lead_id;
  created_at = row.created_at;
  domain_events = [];
})

-- `_to_domain`: each enumeration's call may raise.
unfoldable pub to_domain : ConversationRow → Result Conversation
to_domain row =
    hydrate row (channel_of_value row.channel) (state_of_value row.state)
      (owner_of_value row.owner_type)

-- `self._to_domain(row) if row is not None else None`
abbrev pub to_domain_option : Option ConversationRow → Result (Option Conversation)
to_domain_option none = ok none
to_domain_option (some row) = elim (to_domain row) [ ok c ↦ ok (some c) | err e ↦ err e ]

unfoldable pub get : ℕ → Action (Option Conversation)
get id = do
  row ← gets (λ db. get_row conversation_key id db.conversations)
  lift (to_domain_option row)

unfoldable pub get_by_chatwoot_id : ℕ → String → Action (Option Conversation)
get_by_chatwoot_id organization chatwoot = do
  rows ← gets (λ db.
      select
        (λ (r : ConversationRow).
          r.organization_id == organization && str_eq r.chatwoot_conversation_id chatwoot)
        db.conversations)
  row ← lift (scalar_one_or_none rows)
  lift (to_domain_option row)

abbrev pub has_lead : ℕ → ℕ → ConversationRow → Bool
has_lead organization lead r = r.organization_id == organization && opt_eq r.lead_id (some lead)

unfoldable pub get_by_lead_id : ℕ → ℕ → Action (Option Conversation)
get_by_lead_id organization lead = do
  rows ← gets (λ db. select (has_lead organization lead) db.conversations)
  row ← lift (scalar_one_or_none rows)
  lift (to_domain_option row)

unfoldable pub add : Conversation → Action (Unit {0})
unfolding to_row
add c = modify (λ db. record db { conversations = db.conversations ++ to_row c ∷ [] })

-- The attribute writes of `save` on an existing row.
unfoldable pub write : Conversation → ConversationRow → ConversationRow
write c row = record row {
  state = state_value c.state;
  owner_type = owner_value c.ownership.owner_type;
  owner_id = c.ownership.owner_id;
  owner_since = c.ownership.since;
  owner_reason = c.ownership.reason;
  last_contact_at = c.last_contact_at;
  contact_reference = c.contact_reference;
  lead_id = c.lead_id;
}

abbrev pub save_at :
    Conversation → List ConversationRow → Option ConversationRow → List ConversationRow
save_at c rows none = rows ++ to_row c ∷ []
save_at c rows (some row) = set_row conversation_key c.id (write c) rows

abbrev pub save_rows : Conversation → List ConversationRow → List ConversationRow
save_rows c rows = save_at c rows (get_row conversation_key c.id rows)

unfoldable pub save : Conversation → Action (Unit {0})
unfolding to_row write
save c = modify (λ db. record db { conversations = save_rows c db.conversations })

abbrev pub is_inactive : ℕ → List ConversationState → ConversationRow → Bool
is_inactive cutoff states r =
    ltb r.last_contact_at cutoff && any (λ s. str_eq (state_value s) r.state) states

abbrev pub to_domain_list : List ConversationRow → Result (List Conversation)
to_domain_list [] = ok []
to_domain_list (r ∷ rs) =
    let rest = to_domain_list rs in
    elim (to_domain r) [ err e ↦ err e | ok c ↦ elim rest [ err e ↦ err e | ok cs ↦ ok (c ∷ cs) ] ]

unfoldable pub list_inactive_since : ℕ → List ConversationState → Action (List Conversation)
list_inactive_since cutoff states = do
  rows ← gets (λ db. select (is_inactive cutoff states) db.conversations)
  lift (to_domain_list rows)

abbrev pub is_archived : ℕ → String → ArchivedMessageRow → Bool
is_archived conversation message r =
    r.conversation_id == conversation && str_eq r.chatwoot_message_id message

abbrev add_unless : Bool → ArchivedMessageRow → Action Bool
add_unless true row = pure false
add_unless false row =
    modify (λ db. record db { archived_messages = db.archived_messages ++ row ∷ [] }) >> pure true

-- `MessageArchiveRepository.archive`: `false` where the message had been archived.
unfoldable pub archive : Stamp → ℕ → ℕ → String → String → String → Json → ℕ → Action Bool
archive t organization conversation message sender content payload timestamp = do
  found ← lift (
      scalar_one_or_none
        (← gets (λ db. select (is_archived conversation message) db.archived_messages)))
  add_unless (is_some found) (record {
    id = t.new_id;
    organization_id = organization;
    conversation_id = conversation;
    chatwoot_message_id = message;
    sender = sender;
    content = content;
    raw_payload = payload;
    message_timestamp = timestamp;
    archived_at = t.now;
  })

-- `OwnershipDecisionRepository.add`, called with the fields of a decision.
unfoldable pub add_decision : Stamp → Conversation → OwnershipDecision → Action ℕ
add_decision t c d = do
  modify (λ db. record db {
    ownership_decisions =
        db.ownership_decisions
        ++ record {
          id = t.new_id;
          organization_id = c.organization_id;
          conversation_id = c.id;
          scenario = d.scenario;
          inputs_snapshot = d.inputs_snapshot;
          selected_owner = owner_value d.selected_owner;
          owner_id = d.owner_id;
          explanation = d.explanation;
          decided_at = t.now;
        }
          ∷ [];
  })
  pure t.new_id
