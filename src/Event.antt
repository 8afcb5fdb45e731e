-- ===== src/Event.antt =====
-- Domain events: app/shared/domain/base.py, and the event classes of the modules' domain/models.py.
-- An identifier travels as itself: the source's `str(uuid)` and `uuid.UUID(text)` undo each other.
use leadto_sales_re.Base.{ℕ, String, Option, some, List}
use leadto_sales_re.Lead.Profile.{ProfileSnapshot}

-- One constructor for each event class, its fields in the order of the class.
pub data EventFields : Type 0 where
  message_received : ℕ → String → String → String → ℕ → EventFields
  response_ready : ℕ → String → String → EventFields
  ownership_transferred : ℕ → String → String → String → EventFields
  conversation_went_dormant : ℕ → ℕ → EventFields
  crm_stage_synced : ℕ → String → String → ℕ → EventFields
  profile_completed : ℕ → String → ℕ → ProfileSnapshot → EventFields
  neighborhood_enriched : ℕ → ℕ → List String → EventFields
  organization_created : String → EventFields

pub record DomainEvent : Type 0 where
  pub event_id : ℕ
  pub occurred_at : ℕ
  pub organization_id : Option ℕ
  pub fields : EventFields

-- `DomainEvent.event_type`: the name of the class.
abbrev pub event_type : EventFields → String
event_type (message_received _ _ _ _ _) = "MessageReceived"
event_type (response_ready _ _ _) = "ResponseReady"
event_type (ownership_transferred _ _ _ _) = "OwnershipTransferred"
event_type (conversation_went_dormant _ _) = "ConversationWentDormant"
event_type (crm_stage_synced _ _ _ _) = "CRMStageSynced"
event_type (profile_completed _ _ _ _) = "ProfileCompleted"
event_type (neighborhood_enriched _ _ _) = "NeighborhoodEnriched"
event_type (organization_created _) = "OrganizationCreated"

-- What a call reads of its surroundings: the next `new_id()` and `utcnow()`.
pub record Stamp : Type 0 where
  pub new_id : ℕ
  pub now : ℕ

abbrev pub event_at : Stamp → ℕ → EventFields → DomainEvent
event_at t organization fields = record {
  event_id = t.new_id;
  occurred_at = t.now;
  organization_id = some organization;
  fields = fields;
}
