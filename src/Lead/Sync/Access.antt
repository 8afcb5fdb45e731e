-- ===== src/Lead/Sync/Access.antt =====
-- Who reaches the CRM's data, and what a denied attempt leaves.
use leadto_sales_re.Base.{ℕ, String, ◌≡◌, refl, false, Option, none, some}
use leadto_sales_re.Event.{Stamp}
use leadto_sales_re.Result.{Result, ok, err, crm_access_denied}
use leadto_sales_re.Database.{Database}
use leadto_sales_re.Session.{fresh}
use leadto_sales_re.Lead.Mirror.{Lead}
use leadto_sales_re.Lead.Repository.{record_access, to_domain_option, lead_key, get}
use leadto_sales_re.Base.Table.{get_row}
use leadto_sales_re.Lead.Stage.{PipelineStage}
use leadto_sales_re.Lead.Sync.{
  CrmClient, is_allowed, authorize, poll_once, get_lead, force_resync, push_profile_update,
}

-- A lead as the session reads it.
abbrev pub loaded : ℕ → Database → Result (Option Lead)
loaded id db = to_domain_option (get_row lead_key id db.leads)

module _ (client : CrmClient) (clock : ℕ → Stamp) (actor : String) (db : Database) where
  abbrev pub audited : ℕ → String → Option String → Database
  audited organization action crm_id =
      (record_access (clock 0) organization actor action crm_id false (fresh db)).1.working

  -- An actor that is not on the list gets `CRMAccessDeniedError` from a poll, a read, a forced
  -- synchronization and a write, each on a lead that the mirror knows; the session then holds the
  -- record of the attempt and nothing else, and nothing of it is committed.
  pub denied :
      (organization id : ℕ) (crm_id : String) (stage : PipelineStage) (l : Lead)
      → is_allowed actor ≡ false
      → loaded id db ≡ ok (some l)
      → (poll_once client clock organization actor (fresh db) ≡ (
        err (crm_access_denied actor "poll"),
        record { working = audited organization "poll" none; committed = db },
      ))
        × (get_lead (clock 0) organization crm_id actor (fresh db) ≡ (
          err (crm_access_denied actor "read"),
          record { working = audited organization "read" (some crm_id); committed = db },
        ))
        × (force_resync client clock id actor (fresh db) ≡ (
          err (crm_access_denied actor "force_resync"),
          record {
            working = audited l.organization_id "force_resync" (some l.crm_lead_id);
            committed = db;
          },
        ))
        × (push_profile_update client clock id actor stage (fresh db) ≡ (
          err (crm_access_denied actor "write"),
          record {
            working = audited l.organization_id "write" (some l.crm_lead_id);
            committed = db;
          },
        ))
  unfolding poll_once get_lead force_resync push_profile_update authorize get record_access
  denied organization id crm_id stage l h f =
      (rw h refl, rw h refl, rw f (rw h refl), rw f (rw h refl))
