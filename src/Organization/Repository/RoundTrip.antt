-- ===== src/Organization/Repository/RoundTrip.antt =====
-- A configuration that was stored is read back.
use leadto_sales_re.Base.{ℕ, ◌≡◌, refl, ap, ◌∙◌, inl, inr, Option, none, some, List, Option-cases}
use leadto_sales_re.Base.Table.{get_row, get_row-append_new, get_row-set_row_self, get_row-key}
use leadto_sales_re.Json.{get_field}
use leadto_sales_re.Result.{ok}
use leadto_sales_re.Database.{OrganizationConfigRow}
use leadto_sales_re.Session.{Session}
use leadto_sales_re.Organization.{
  OrganizationConfig, ChatwootConfig, WhatsappBusinessConfig, CrmConfig, GoogleWorkspaceConfig,
}
use leadto_sales_re.Organization.Dictionary.{
  column_of, chatwoot_of, whatsapp_of, crm_of, google_of, vars_of, chatwoot_fields, whatsapp_fields,
  crm_fields, google_fields,
}
use leadto_sales_re.Organization.Repository.{
  config_key, config_of_row, config_option, write_config, blank_row, upsert_rows, get_config,
  upsert,
}

chatwoot_back :
    (o : Option ChatwootConfig) → column_of chatwoot_of (vars_of chatwoot_fields o) ≡ ok o
unfolding get_field
chatwoot_back none = refl
chatwoot_back (some c) = refl

whatsapp_back :
    (o : Option WhatsappBusinessConfig) → column_of whatsapp_of (vars_of whatsapp_fields o) ≡ ok o
unfolding get_field
whatsapp_back none = refl
whatsapp_back (some c) = refl

crm_back : (o : Option CrmConfig) → column_of crm_of (vars_of crm_fields o) ≡ ok o
unfolding get_field
crm_back none = refl
crm_back (some c) = refl

google_back :
    (o : Option GoogleWorkspaceConfig) → column_of google_of (vars_of google_fields o) ≡ ok o
unfolding get_field
google_back none = refl
google_back (some c) = refl

written_back :
    (now : ℕ) (c : OrganizationConfig) (row : OrganizationConfigRow)
    → row.organization_id ≡ c.organization_id
    → config_of_row (write_config now c row) ≡ ok (record c { updated_at = now })
written_back now c row e =
    let at = λ (id : ℕ). ok (record c { organization_id = id; updated_at = now }) in
    rw
      (
        chatwoot_back c.chatwoot,
        whatsapp_back c.whatsapp,
        crm_back c.crm,
        google_back c.google_workspace,
      )
      (ap at e)

-- The row that `upsert` leaves is one that was written, the old one or a new one.
upserted :
    (now : ℕ) (c : OrganizationConfig) (rows : List OrganizationConfigRow)
    → (row : OrganizationConfigRow) × (get_row config_key c.organization_id (upsert_rows now c rows)
        ≡ some (write_config now c row))
      × (row.organization_id ≡ c.organization_id)
upserted now c rows = elim (Option-cases (get_row config_key c.organization_id rows)) [
  | inl n ↦
      let blank = blank_row now c.organization_id in
      let id = c.organization_id in
      (blank, rw n (get_row-append_new config_key id rows (write_config now c blank) n refl), refl)
  | inr (row, e) ↦
      let id = c.organization_id in
      (
        row,
        rw e (get_row-set_row_self config_key id (write_config now c) rows refl e),
        get_row-key config_key id row rows e,
      )
]

-- Whatever the table holds, a configuration that is stored is the one that is read next, with the
-- time of the storing: each of its four parts, also an absent one.
pub get_config-upsert :
    (now : ℕ) (c : OrganizationConfig) (s : Session)
    → (get_config c.organization_id (upsert now c s).1).0
      ≡ ok (some (record c { updated_at = now }))
unfolding get_config upsert
get_config-upsert now c s =
    let (row, e, same) = upserted now c s.working.organization_configs in
    ap config_option e ∙ rw (written_back now c row same) refl
