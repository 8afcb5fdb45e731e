-- ===== src/Lead/Repository.antt =====
-- app/modules/lead_qualification/infrastructure/repository.py
use leadto_sales_re.Base.{
  ℕ, String, Bool, false, ◌&&◌, Option, none, some, List, [], ◌∷◌, ◌++◌, str_eq, ltb, ◌==◌,
  if◌then◌else◌, select,
}
use leadto_sales_re.Base.Table.{get_row, set_row}
use leadto_sales_re.Event.{Stamp}
use leadto_sales_re.Result.{Result, ok, err, value_error, or_raise}
use leadto_sales_re.Database.{Database, LeadRow, SyncCursorRow}
use leadto_sales_re.Session.{Action, modify, scalar_one_or_none}
use leadto_sales_re.Lead.Stage.{PipelineStage, stage_value, stage_of_value}
use leadto_sales_re.Lead.Mirror.{Lead}

abbrev pub lead_key : LeadRow → ℕ
lead_key r = r.id

-- `LeadRepository._to_row`
unfoldable pub to_row : Lead → LeadRow
to_row l = record {
  id = l.id;
  organization_id = l.organization_id;
  crm_lead_id = l.crm_lead_id;
  pipeline_stage = stage_value l.pipeline_stage;
  lead_score = l.lead_score;
  assigned_broker_id = l.assigned_broker_id;
  contact_reference = l.contact_reference;
  synced_at = l.synced_at;
  created_at = l.created_at;
}

abbrev pub with_stage : LeadRow → PipelineStage → Lead
with_stage row stage = record {
  id = row.id;
  organization_id = row.organization_id;
  crm_lead_id = row.crm_lead_id;
  pipeline_stage = stage;
  lead_score = row.lead_score;
  assigned_broker_id = row.assigned_broker_id;
  contact_reference = row.contact_reference;
  synced_at = row.synced_at;
  created_at = row.created_at;
  domain_events = [];
}

abbrev pub map_ok : {A B : Type 0} → (A → B) → Result A → Result B
map_ok f (ok a) = ok (f a)
map_ok f (err e) = err e

-- `PipelineStage(value)`, which may raise `ValueError`.
abbrev pub stage_or_raise : String → Result PipelineStage
stage_or_raise v = or_raise (value_error "PipelineStage") (stage_of_value v)

-- `LeadRepository._to_domain`
unfoldable pub to_domain : LeadRow → Result Lead
to_domain row = map_ok (with_stage row) (stage_or_raise row.pipeline_stage)

abbrev pub to_domain_option : Option LeadRow → Result (Option Lead)
to_domain_option none = ok none
to_domain_option (some row) = map_ok some (to_domain row)

unfoldable pub get : ℕ → Action (Option Lead)
get id s = (to_domain_option (get_row lead_key id s.working.leads), s)

-- The rows of a query that takes one row at most.
abbrev pub one_lead : Result (Option LeadRow) → Result (Option Lead)
one_lead (ok row) = to_domain_option row
one_lead (err e) = err e

abbrev pub has_crm_id : ℕ → String → LeadRow → Bool
has_crm_id organization crm_id r = r.organization_id == organization && str_eq r.crm_lead_id crm_id

abbrev pub by_crm_id : ℕ → String → List LeadRow → Result (Option Lead)
by_crm_id organization crm_id rows =
    one_lead (scalar_one_or_none (select (has_crm_id organization crm_id) rows))

unfoldable pub get_by_crm_id : ℕ → String → Action (Option Lead)
get_by_crm_id organization crm_id s = (by_crm_id organization crm_id s.working.leads, s)

abbrev text_is : Option String → String → Bool
text_is none t = false
text_is (some s) t = str_eq s t

abbrev pub has_contact : ℕ → String → LeadRow → Bool
has_contact organization contact r =
    r.organization_id == organization && text_is r.contact_reference contact

abbrev pub by_contact : ℕ → String → List LeadRow → Result (Option Lead)
by_contact organization contact rows =
    one_lead (scalar_one_or_none (select (has_contact organization contact) rows))

unfoldable pub get_by_contact_reference : ℕ → String → Action (Option Lead)
get_by_contact_reference organization contact s =
    (by_contact organization contact s.working.leads, s)

abbrev pub add_lead : Lead → List LeadRow → List LeadRow
add_lead l rows = rows ++ to_row l ∷ []

-- `LeadRepository.add`
unfoldable pub add : Lead → Action (Unit {0})
unfolding to_row
add l = modify (λ db. record db { leads = add_lead l db.leads })

-- The attribute writes of `save` on an existing row.
unfoldable pub write : Lead → LeadRow → LeadRow
write l row = record row {
  pipeline_stage = stage_value l.pipeline_stage;
  lead_score = l.lead_score;
  assigned_broker_id = l.assigned_broker_id;
  contact_reference = l.contact_reference;
  synced_at = l.synced_at;
}

abbrev pub save_at : Lead → List LeadRow → Option LeadRow → List LeadRow
save_at l rows none = add_lead l rows
save_at l rows (some row) = set_row lead_key l.id (write l) rows

abbrev pub save_rows : Lead → List LeadRow → List LeadRow
save_rows l rows = save_at l rows (get_row lead_key l.id rows)

-- `LeadRepository.save`
unfoldable pub save : Lead → Action (Unit {0})
unfolding to_row write
save l = modify (λ db. record db { leads = save_rows l db.leads })

-- `SyncCursorRepository`: an organization that never synced is at the epoch.
abbrev pub cursor_key : SyncCursorRow → ℕ
cursor_key r = r.organization_id

abbrev pub watermark_or_epoch : Option SyncCursorRow → ℕ
watermark_or_epoch none = 0
watermark_or_epoch (some row) = row.watermark

abbrev pub watermark_of : ℕ → Database → ℕ
watermark_of organization db = watermark_or_epoch (get_row cursor_key organization db.sync_cursors)

unfoldable pub get_watermark : ℕ → Action ℕ
get_watermark organization s = (ok (watermark_of organization s.working), s)

abbrev pub forward : ℕ → ℕ → SyncCursorRow → SyncCursorRow
forward now new row =
    if ltb row.watermark new then record row { watermark = new; updated_at = now } else row

abbrev pub advance_at : ℕ → ℕ → ℕ → List SyncCursorRow → Option SyncCursorRow → List SyncCursorRow
advance_at now organization new rows none =
    rows ++ record { organization_id = organization; watermark = new; updated_at = now } ∷ []
advance_at now organization new rows (some row) =
    set_row cursor_key organization (forward now new) rows

abbrev pub advance_rows : ℕ → ℕ → ℕ → List SyncCursorRow → List SyncCursorRow
advance_rows now organization new rows =
    advance_at now organization new rows (get_row cursor_key organization rows)

-- `advance_watermark`
unfoldable pub advance_watermark : ℕ → ℕ → ℕ → Action (Unit {0})
advance_watermark now organization new =
    modify (λ db. record db { sync_cursors = advance_rows now organization new db.sync_cursors })

-- `CRMAccessAuditRepository.record`; no caller gives a detail.
unfoldable pub record_access :
    Stamp → ℕ → String → String → Option String → Bool → Action (Unit {0})
record_access t organization actor action crm_id allowed = modify (λ db. record db {
  crm_access_audit =
      db.crm_access_audit
      ++ record {
        id = t.new_id;
        organization_id = organization;
        actor = actor;
        action = action;
        crm_lead_id = crm_id;
        allowed = allowed;
        occurred_at = t.now;
      }
        ∷ [];
})
