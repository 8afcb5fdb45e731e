-- ===== src/Tests.antt =====
-- Concrete data for the examples, which stand in the modules below.
pub mod Conversations
pub mod Leads
pub mod Rankings
pub mod Recommendations
pub mod Workers
pub mod Organizations
pub mod Events
pub mod Inbound
pub mod Prompts
use leadto_sales_re.Base.{ℕ, ◌+◌, String, Option, none, some, [], ◌∷◌, str_eq, if◌then◌else◌}
use leadto_sales_re.Event.{Stamp}
use leadto_sales_re.Result.{ok}
use leadto_sales_re.Database.{Database, ConversationRow, LeadRow, empty}
use leadto_sales_re.Conversation.State.{ConversationState, state_value}
use leadto_sales_re.Conversation.Model.{
  Conversation, OwnerType, Channel, owner_value, channel_value,
}
use leadto_sales_re.Conversation.Guardrail.{Patterns, BypassDecision, NamedMatch}
use leadto_sales_re.Conversation.Coordinator.{Responder, SidebarPort}

abbrev pub clock : ℕ → Stamp
clock k = record { new_id = 100 + k; now = 1000 + k }

abbrev pub chat_row : ConversationState → OwnerType → ConversationRow
chat_row s o = record {
  id = 1;
  organization_id = 7;
  chatwoot_conversation_id = "c-1";
  channel = channel_value Channel.whatsapp;
  state = state_value s;
  contact_reference = some "+34600";
  lead_id = none;
  owner_type = owner_value o;
  owner_id = none;
  owner_since = 10;
  owner_reason = "start";
  last_contact_at = 20;
  created_at = 5;
}

-- The conversation of that row.
abbrev pub chat : ConversationState → OwnerType → Conversation
chat s o = record {
  id = 1;
  organization_id = 7;
  chatwoot_conversation_id = "c-1";
  channel = Channel.whatsapp;
  state = s;
  ownership = record { owner_type = o; owner_id = none; since = 10; reason = "start" };
  last_contact_at = 20;
  contact_reference = some "+34600";
  lead_id = none;
  created_at = 5;
  domain_events = [];
}

abbrev pub chat_db : ConversationState → OwnerType → Database
chat_db s o = record empty {
  organizations = record { id = 7; name = "Acme"; status = "active"; created_at = 1 } ∷ [];
  conversations = chat_row s o ∷ [];
}

abbrev search_ana : String → Option NamedMatch
search_ana m =
    if str_eq m "quiero hablar con Ana"
    then some (record { name = "Ana"; text = "hablar con Ana" })
    else none

abbrev pub patterns : Patterns
patterns = record { named = search_ana ∷ []; generic = λ m. none; strip = λ m. m; lower = λ m. m }

abbrev pub asks_for_ana : BypassDecision
asks_for_ana = record { broker_requested = some "Ana"; matched_text = "hablar con Ana" }

abbrev pub respond : Responder
respond prompt id text = ok "Hola"

abbrev pub no_sidebar : SidebarPort
no_sidebar = none

abbrev pub lead_row : LeadRow
lead_row = record {
  id = 3;
  organization_id = 7;
  crm_lead_id = "d-1";
  pipeline_stage = "New";
  lead_score = 50;
  assigned_broker_id = none;
  contact_reference = some "+34600";
  synced_at = 30;
  created_at = 30;
}

abbrev pub lead_db : Database
lead_db = record empty { leads = lead_row ∷ [] }
