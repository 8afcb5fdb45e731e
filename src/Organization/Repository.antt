-- ===== src/Organization/Repository.antt =====
-- app/modules/organization/infrastructure/repository.py. A configuration is stored as the dictionary
-- that `vars` makes of it.
pub mod RoundTrip
use leadto_sales_re.Base.{ℕ, Option, none, some, List, [], ◌∷◌, ◌++◌}
use leadto_sales_re.Base.Table.{get_row, set_row}
use leadto_sales_re.Organization.Dictionary.{
  column_of, chatwoot_of, whatsapp_of, crm_of, google_of, vars_of, chatwoot_fields, whatsapp_fields,
  crm_fields, google_fields,
}
use leadto_sales_re.Result.{Result, ok, err, value_error, or_raise, map_results}
use leadto_sales_re.Database.{OrganizationRow, OrganizationConfigRow}
use leadto_sales_re.Session.{Action, modify}
use leadto_sales_re.Lead.Repository.{map_ok}
use leadto_sales_re.Organization.{
  OrgStatus, status_value, status_of_value, Organization, OrganizationConfig, ChatwootConfig,
  WhatsappBusinessConfig, CrmConfig, GoogleWorkspaceConfig,
}

abbrev pub organization_key : OrganizationRow → ℕ
organization_key r = r.id

abbrev pub config_key : OrganizationConfigRow → ℕ
config_key r = r.organization_id

abbrev pub to_row : Organization → OrganizationRow
to_row o = record {
  id = o.id;
  name = o.name;
  status = status_value o.status;
  created_at = o.created_at;
}

unfoldable pub add : Organization → Action (Unit {0})
add o = modify (λ db. record db { organizations = db.organizations ++ to_row o ∷ [] })

abbrev with_status : ℕ → OrganizationRow → OrgStatus → Organization
with_status now row status = record {
  id = row.id;
  name = row.name;
  status = status;
  created_at = now;
  domain_events = [];
}

-- `Organization(name=…, id=…, status=OrgStatus(…))`: its time of creation is that of the call.
abbrev pub to_domain : ℕ → OrganizationRow → Result Organization
to_domain now row =
    map_ok (with_status now row) (or_raise (value_error "OrgStatus") (status_of_value row.status))

abbrev pub to_domain_option : ℕ → Option OrganizationRow → Result (Option Organization)
to_domain_option now none = ok none
to_domain_option now (some row) = map_ok some (to_domain now row)

unfoldable pub get : ℕ → ℕ → Action (Option Organization)
get now id s = (to_domain_option now (get_row organization_key id s.working.organizations), s)

unfoldable pub list_all : ℕ → Action (List Organization)
list_all now s = (map_results (to_domain now) s.working.organizations, s)

abbrev pub write_status : OrgStatus → OrganizationRow → OrganizationRow
write_status status row = record row { status = status_value status }

unfoldable pub save_status : Organization → Action (Unit {0})
save_status o = modify (λ db. record db {
  organizations = set_row organization_key o.id (write_status o.status) db.organizations;
})

abbrev assemble :
    OrganizationConfigRow
    → Result (Option ChatwootConfig)
    → Result (Option WhatsappBusinessConfig)
    → Result (Option CrmConfig)
    → Result (Option GoogleWorkspaceConfig)
    → Result OrganizationConfig
assemble row (err e) w c g = err e
assemble row (ok a) (err e) c g = err e
assemble row (ok a) (ok w) (err e) g = err e
assemble row (ok a) (ok w) (ok c) (err e) = err e
assemble row (ok a) (ok w) (ok c) (ok g) = ok (record {
  organization_id = row.organization_id;
  chatwoot = a;
  whatsapp = w;
  crm = c;
  google_workspace = g;
  updated_at = row.updated_at;
})

abbrev pub config_of_row : OrganizationConfigRow → Result OrganizationConfig
config_of_row row =
    assemble row (column_of chatwoot_of row.chatwoot_config)
      (column_of whatsapp_of row.whatsapp_config) (column_of crm_of row.crm_config)
      (column_of google_of row.google_workspace_config)

abbrev pub config_option : Option OrganizationConfigRow → Result (Option OrganizationConfig)
config_option none = ok none
config_option (some row) = map_ok some (config_of_row row)

-- `OrganizationConfigRepository.get`
unfoldable pub get_config : ℕ → Action (Option OrganizationConfig)
get_config id s = (config_option (get_row config_key id s.working.organization_configs), s)

-- The attribute writes of `upsert`: the time is that of the call.
abbrev pub write_config : ℕ → OrganizationConfig → OrganizationConfigRow → OrganizationConfigRow
write_config now c row = record row {
  chatwoot_config = vars_of chatwoot_fields c.chatwoot;
  whatsapp_config = vars_of whatsapp_fields c.whatsapp;
  crm_config = vars_of crm_fields c.crm;
  google_workspace_config = vars_of google_fields c.google_workspace;
  updated_at = now;
}

abbrev pub blank_row : ℕ → ℕ → OrganizationConfigRow
blank_row now id = record {
  organization_id = id;
  chatwoot_config = none;
  whatsapp_config = none;
  crm_config = none;
  google_workspace_config = none;
  updated_at = now;
}

abbrev upsert_at :
    ℕ
    → OrganizationConfig
    → List OrganizationConfigRow
    → Option OrganizationConfigRow
    → List OrganizationConfigRow
upsert_at now c rows none = rows ++ write_config now c (blank_row now c.organization_id) ∷ []
upsert_at now c rows (some row) = set_row config_key c.organization_id (write_config now c) rows

abbrev pub upsert_rows :
    ℕ → OrganizationConfig → List OrganizationConfigRow → List OrganizationConfigRow
upsert_rows now c rows = upsert_at now c rows (get_row config_key c.organization_id rows)

unfoldable pub upsert : ℕ → OrganizationConfig → Action (Unit {0})
upsert now c =
    modify (λ db. record db { organization_configs = upsert_rows now c db.organization_configs })
