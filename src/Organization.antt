-- ===== src/Organization.antt =====
-- app/modules/organization/domain/models.py: an organization and its configuration.
pub mod Dictionary
pub mod Repository
pub mod Service
pub mod Router
use leadto_sales_re.Base.{
  ℕ, String, Bool, ◌&&◌, Option, none, some, List, [], ◌∷◌, str_eq, if◌then◌else◌, is_some,
}
use leadto_sales_re.Event.{DomainEvent, Stamp, organization_created}

pub data OrgStatus : Type 0 where
  active suspended onboarding : OrgStatus

abbrev pub status_value : OrgStatus → String
status_value active = "active"
status_value suspended = "suspended"
status_value onboarding = "onboarding"

-- `OrgStatus(value)`
abbrev pub status_of_value : String → Option OrgStatus
status_of_value v =
    if str_eq v "active"
    then some active
    else if str_eq v "suspended"
    then some suspended
    else if str_eq v "onboarding"
    then some onboarding
    else none

pub record ChatwootConfig : Type 0 where
  pub inbox_id : String
  pub account_id : String
  pub api_access_token : String
  pub base_url : String

pub record WhatsappBusinessConfig : Type 0 where
  pub phone_number_id : String
  pub business_account_id : String
  pub access_token : String

pub record CrmConfig : Type 0 where
  pub base_url : String
  pub api_key : String
  pub tenant_ref : String

pub record GoogleWorkspaceConfig : Type 0 where
  pub service_account_json_ref : String
  pub calendar_id : String
  pub transcript_source_opt_in : Bool

pub record Organization : Type 0 where
  pub id : ℕ
  pub name : String
  pub status : OrgStatus
  pub created_at : ℕ
  pub domain_events : List DomainEvent

-- `Organization.create(name)`: the event has an identifier of its own.
unfoldable pub create : (ℕ → Stamp) → String → Organization
create clock name = record {
  id = (clock 0).new_id;
  name = name;
  status = onboarding;
  created_at = (clock 0).now;
  domain_events =
      record {
        event_id = (clock 1).new_id;
        occurred_at = (clock 1).now;
        organization_id = some (clock 0).new_id;
        fields = organization_created name;
      }
      ∷ [];
}

unfoldable pub activate : Organization → Organization
activate o = record o { status = active }

unfoldable pub suspend : Organization → Organization
suspend o = record o { status = suspended }

pub record OrganizationConfig : Type 0 where
  pub organization_id : ℕ
  pub chatwoot : Option ChatwootConfig
  pub whatsapp : Option WhatsappBusinessConfig
  pub crm : Option CrmConfig
  pub google_workspace : Option GoogleWorkspaceConfig
  pub updated_at : ℕ

unfoldable pub is_complete_for_activation : OrganizationConfig → Bool
is_complete_for_activation c = is_some c.chatwoot && is_some c.whatsapp && is_some c.crm
