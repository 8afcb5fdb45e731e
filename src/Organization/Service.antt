-- ===== src/Organization/Service.antt =====
-- app/modules/organization/application/service.py
pub mod Activation
use leadto_sales_re.Base.{ℕ, String, Option, none, some, List, [], if◌then◌else◌}
use leadto_sales_re.Event.{Stamp}
use leadto_sales_re.EventBus.{publish}
use leadto_sales_re.Session.{Action, pure, commit, ◌>>=◌, ◌>>◌}
use leadto_sales_re.Organization.{
  Organization, OrganizationConfig, create, activate, is_complete_for_activation,
}
use leadto_sales_re.Organization.Repository.{add, get, list_all, save_status, upsert}

unfoldable pub create_organization : (ℕ → Stamp) → String → Action Organization
unfolding create
create_organization clock name =
    let o = create clock name in
    do add o; publish o.domain_events; commit; pure (record o { domain_events = [] })

unfoldable pub get_organization : ℕ → ℕ → Action (Option Organization)
get_organization = get

unfoldable pub list_organizations : ℕ → Action (List Organization)
list_organizations = list_all

abbrev pub activate_if : OrganizationConfig → Option Organization → Action (Unit {0})
activate_if c none = pure tt
activate_if c (some o) = if is_complete_for_activation c then save_status (activate o) else pure tt

unfoldable pub upsert_config : ℕ → OrganizationConfig → Action OrganizationConfig
unfolding activate is_complete_for_activation
upsert_config now c = do
  upsert now c
  found ← get now c.organization_id
  activate_if c found
  commit
  pure c
