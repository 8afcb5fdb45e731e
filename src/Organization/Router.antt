-- ===== src/Organization/Router.antt =====
-- app/modules/organization/api/router.py. The principal is the one of the request's token; a request
-- whose body the HTTP layer refused does not come here.
use leadto_sales_re.Base.{ℕ, String, Bool, not, Option, ◌==◌, if◌then◌else◌}
use leadto_sales_re.Event.{Stamp}
use leadto_sales_re.Result.{Result, Error, http_exception, or_raise}
use leadto_sales_re.Database.{Database}
use leadto_sales_re.Session.{Action, pure, raise, lift, in_session, ◌>>=◌}
use leadto_sales_re.Organization.{
  Organization, OrganizationConfig, ChatwootConfig, WhatsappBusinessConfig, CrmConfig,
  GoogleWorkspaceConfig, status_value, is_complete_for_activation,
}
use leadto_sales_re.Organization.Service.{create_organization, get_organization, upsert_config}

-- `AuthenticatedPrincipal`
pub record AuthenticatedPrincipal : Type 0 where
  pub user_id : ℕ
  pub organization_id : ℕ
  pub email : String
  pub role : String

pub record OrganizationResponse : Type 0 where
  pub id : ℕ
  pub name : String
  pub status : String

pub record UpsertOrganizationConfigRequest : Type 0 where
  pub chatwoot : Option ChatwootConfig
  pub whatsapp : Option WhatsappBusinessConfig
  pub crm : Option CrmConfig
  pub google_workspace : Option GoogleWorkspaceConfig

abbrev response_of : Organization → OrganizationResponse
response_of o = record { id = o.id; name = o.name; status = status_value o.status }

abbrev pub cross_organization : Error
cross_organization = http_exception 403 "Cross-organization access denied"

abbrev guarded : {A : Type 0} → AuthenticatedPrincipal → ℕ → Action A → Action A
guarded principal id m =
    if not (principal.organization_id == id) then raise cross_organization else m

unfoldable pub create_endpoint :
    (ℕ → Stamp) → String → Database → Result OrganizationResponse × Database
unfolding create_organization
create_endpoint clock name = in_session do o ← create_organization clock name; pure (response_of o)

unfoldable pub get_endpoint :
    AuthenticatedPrincipal → ℕ → ℕ → Database → Result OrganizationResponse × Database
unfolding get_organization
get_endpoint principal now id = in_session (
    guarded principal id do
      found ← get_organization now id
      o ← lift (or_raise (http_exception 404 "Organization not found") found)
      pure (response_of o))

-- The configuration that the handler builds, with the time of the call.
abbrev pub requested : ℕ → ℕ → UpsertOrganizationConfigRequest → OrganizationConfig
requested now id r = record {
  organization_id = id;
  chatwoot = r.chatwoot;
  whatsapp = r.whatsapp;
  crm = r.crm;
  google_workspace = r.google_workspace;
  updated_at = now;
}

-- The answer: the configuration, and whether it suffices.
unfoldable pub upsert_config_endpoint :
    AuthenticatedPrincipal
    → ℕ
    → ℕ
    → UpsertOrganizationConfigRequest
    → Database
    → Result (OrganizationConfig × Bool) × Database
unfolding upsert_config is_complete_for_activation
upsert_config_endpoint principal now id request = in_session (
    guarded principal id do
      saved ← upsert_config now (requested now id request)
      pure (saved, is_complete_for_activation saved))
