-- ===== src/Organization/Service/Activation.antt =====
-- When an organization becomes active, and who reaches it.
use leadto_sales_re.Base.{
  ℕ, ◌≡◌, refl, ◌≢◌, inl, inr, some, [], ◌==◌, if◌then◌else◌, ==_iff, Bool-cases,
}
use leadto_sales_re.Base.Table.{get_row, set_row, get_row-key}
use leadto_sales_re.Result.{ok, err}
use leadto_sales_re.Database.{Database, OrganizationRow}
use leadto_sales_re.Session.{Session, fresh, in_session, commit}
use leadto_sales_re.Organization.{
  OrgStatus, active, status_of_value, Organization, OrganizationConfig, activate,
  is_complete_for_activation,
}
use leadto_sales_re.Organization.Repository.{
  organization_key, get, save_status, upsert, upsert_rows, write_status,
}
use leadto_sales_re.Organization.Service.{upsert_config, activate_if}
use leadto_sales_re.Organization.Router.{
  AuthenticatedPrincipal, UpsertOrganizationConfigRequest, cross_organization, get_endpoint,
  upsert_config_endpoint,
}

-- The database after a configuration of an organization that is stored with a readable status.
abbrev pub configured : ℕ → OrganizationConfig → Database → Database
configured now c db = record db {
  organization_configs = upsert_rows now c db.organization_configs;
  organizations =
      if is_complete_for_activation c
      then set_row organization_key c.organization_id (write_status active) db.organizations
      else db.organizations;
}

module _ (now : ℕ) (c : OrganizationConfig) where
  activate_if_lem :
      (o : Organization) (s : Session)
      → o.id ≡ c.organization_id
      → activate_if c (some o) s ≡ (
        ok tt,
        record s {
          working = record s.working {
            organizations =
                if is_complete_for_activation c
                then set_row organization_key c.organization_id
                    (write_status active)
                    s.working.organizations
                else s.working.organizations;
          };
        },
      )
  unfolding save_status activate
  activate_if_lem o s e = elim (Bool-cases (is_complete_for_activation c)) [
    | inl complete ↦ rw complete (rw e refl)
    | inr incomplete ↦ rw incomplete refl
  ]

  -- Of an organization whose row can be read, whatever its status: the configuration is stored and
  -- committed, and the status becomes active if Chatwoot, WhatsApp and the CRM are all configured;
  -- otherwise it stays.
  pub upsert_config_outcome :
      (row : OrganizationRow) (status : OrgStatus) (db : Database)
      → get_row organization_key c.organization_id db.organizations ≡ some row
      → status_of_value row.status ≡ some status
      → in_session (upsert_config now c) db ≡ (ok c, configured now c db)
  unfolding upsert_config upsert get commit
  upsert_config_outcome row status db found readable = rw found (
      rw readable (
        rw
          (activate_if_lem
            (record {
              id = row.id;
              name = row.name;
              status = status;
              created_at = now;
              domain_events = [];
            })
            (upsert now c (fresh db)).1
            (get_row-key organization_key c.organization_id row db.organizations found))
          refl))

-- A principal of another organization gets the 403 from both endpoints of an organization, whatever
-- it asks for, and the database stays as it is.
pub cross_organization_denied :
    (principal : AuthenticatedPrincipal) (now id : ℕ) (request : UpsertOrganizationConfigRequest)
    (db : Database)
    → principal.organization_id ≢ id
    → (get_endpoint principal now id db ≡ (err cross_organization, db))
      × (upsert_config_endpoint principal now id request db ≡ (err cross_organization, db))
unfolding get_endpoint upsert_config_endpoint
cross_organization_denied principal now id request db other =
    elim (Bool-cases (principal.organization_id == id)) [
      | inl same ↦ absurd (other ((==_iff principal.organization_id id).0 same))
      | inr e ↦ (rw e refl, rw e refl)
    ]
