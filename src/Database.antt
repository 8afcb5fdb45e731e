-- ===== src/Database.antt =====
-- The tables that the modules share: the classes of the modules' infrastructure/db_models.py and of
-- app/shared/infrastructure/db_models.py. A table is the list of its rows. Enumerations are stored
-- as their strings, as in the source.
use leadto_sales_re.Base.{ℕ, String, Bool, Option, List, []}
use leadto_sales_re.Base.Amount.{ℤ}
use leadto_sales_re.Event.{EventFields}
use leadto_sales_re.Json.{Json, Fields}

pub record ConversationRow : Type 0 where
  pub id : ℕ
  pub organization_id : ℕ
  pub chatwoot_conversation_id : String
  pub channel : String
  pub state : String
  pub contact_reference : Option String
  pub lead_id : Option ℕ
  pub owner_type : String
  pub owner_id : Option ℕ
  pub owner_since : ℕ
  pub owner_reason : String
  pub last_contact_at : ℕ
  pub created_at : ℕ

pub record ArchivedMessageRow : Type 0 where
  pub id : ℕ
  pub organization_id : ℕ
  pub conversation_id : ℕ
  pub chatwoot_message_id : String
  pub sender : String
  pub content : String
  pub raw_payload : Json
  pub message_timestamp : ℕ
  pub archived_at : ℕ

-- `inputs_snapshot` of a decision: the dictionary that `OwnershipPolicyEngine.evaluate` builds.
pub record InputsSnapshot : Type 0 where
  pub conversation_id : ℕ
  pub state : String
  pub current_owner : String
  pub broker_requested : Option String
  pub is_guardrail_bypass : Bool

pub record OwnershipDecisionRow : Type 0 where
  pub id : ℕ
  pub organization_id : ℕ
  pub conversation_id : ℕ
  pub scenario : String
  pub inputs_snapshot : InputsSnapshot
  pub selected_owner : String
  pub owner_id : Option ℕ
  pub explanation : String
  pub decided_at : ℕ

pub record LeadRow : Type 0 where
  pub id : ℕ
  pub organization_id : ℕ
  pub crm_lead_id : String
  pub pipeline_stage : String
  pub lead_score : ℕ
  pub assigned_broker_id : Option ℕ
  pub contact_reference : Option String
  pub synced_at : ℕ
  pub created_at : ℕ

pub record BuyerProfileRow : Type 0 where
  pub id : ℕ
  pub organization_id : ℕ
  pub lead_id : ℕ
  pub budget_min : Option ℤ
  pub budget_max : Option ℤ
  pub locations : List String
  pub property_type : Option String
  pub timeline : Option String
  pub must_haves : List String
  pub updated_at : ℕ

pub record SyncCursorRow : Type 0 where
  pub organization_id : ℕ
  pub watermark : ℕ
  pub updated_at : ℕ

pub record CrmAccessAuditRow : Type 0 where
  pub id : ℕ
  pub organization_id : ℕ
  pub actor : String
  pub action : String
  pub crm_lead_id : Option String
  pub allowed : Bool
  pub occurred_at : ℕ

-- `payload` holds the event's fields and its type, as `_serialize` puts them there.
pub record OutboxEventRow : Type 0 where
  pub event_id : ℕ
  pub event_type : String
  pub organization_id : Option ℕ
  pub payload : EventFields
  pub occurred_at : ℕ
  pub processed_at : Option ℕ
  pub attempts : ℕ
  pub last_error : Option String

pub record InboxRow : Type 0 where
  pub consumer_name : String
  pub event_id : ℕ
  pub processed_at : ℕ

-- `AIDecisionTraceORM`, without its cost and its latency.
pub record DecisionTraceRow : Type 0 where
  pub id : ℕ
  pub organization_id : ℕ
  pub agent_name : String
  pub conversation_id : Option ℕ
  pub tool_calls : List (String × String × String)
  pub output : List (String × String)
  pub created_at : ℕ

pub record PromptTemplateRow : Type 0 where
  pub id : ℕ
  pub organization_id : ℕ
  pub agent_name : String

pub record PromptVersionRow : Type 0 where
  pub id : ℕ
  pub prompt_template_id : ℕ
  pub version : String
  pub content : String
  pub active : Bool
  pub created_at : ℕ

pub record OrganizationRow : Type 0 where
  pub id : ℕ
  pub name : String
  pub status : String
  pub created_at : ℕ

-- A column of JSON is null, or an object as the list of its fields.
pub record OrganizationConfigRow : Type 0 where
  pub organization_id : ℕ
  pub chatwoot_config : Option Fields
  pub whatsapp_config : Option Fields
  pub crm_config : Option Fields
  pub google_workspace_config : Option Fields
  pub updated_at : ℕ

pub record AdminUserRow : Type 0 where
  pub id : ℕ
  pub organization_id : ℕ
  pub email : String
  pub hashed_password : String
  pub role : String
  pub is_active : Bool
  pub created_at : ℕ

pub record PropertyRow : Type 0 where
  pub id : ℕ
  pub organization_id : ℕ
  pub external_id : String
  pub price : ℤ
  pub zone : String
  pub property_type : String
  pub features : List String
  pub description : String
  pub updated_at : ℕ

pub record PropertyEmbeddingRow : Type 0 where
  pub property_id : ℕ
  pub vector : List ℤ
  pub model_version : String
  pub source_hash : String
  pub computed_at : ℕ

pub record Database : Type 0 where
  pub organizations : List OrganizationRow
  pub organization_configs : List OrganizationConfigRow
  pub admin_users : List AdminUserRow
  pub conversations : List ConversationRow
  pub archived_messages : List ArchivedMessageRow
  pub ownership_decisions : List OwnershipDecisionRow
  pub leads : List LeadRow
  pub buyer_profiles : List BuyerProfileRow
  pub sync_cursors : List SyncCursorRow
  pub crm_access_audit : List CrmAccessAuditRow
  pub outbox_events : List OutboxEventRow
  pub inbox_records : List InboxRow
  pub decision_traces : List DecisionTraceRow
  pub prompt_templates : List PromptTemplateRow
  pub prompt_versions : List PromptVersionRow
  pub properties : List PropertyRow
  pub property_embeddings : List PropertyEmbeddingRow

abbrev pub empty : Database
empty = record {
  organizations = [];
  organization_configs = [];
  admin_users = [];
  conversations = [];
  archived_messages = [];
  ownership_decisions = [];
  leads = [];
  buyer_profiles = [];
  sync_cursors = [];
  crm_access_audit = [];
  outbox_events = [];
  inbox_records = [];
  decision_traces = [];
  prompt_templates = [];
  prompt_versions = [];
  properties = [];
  property_embeddings = [];
}
