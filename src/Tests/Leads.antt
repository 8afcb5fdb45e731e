-- ===== src/Tests/Leads.antt =====
-- Examples of the theorems on leads and profiles at concrete inputs.
use leadto_sales_re.Base.{
  ℕ, ◌≤◌, ◌<◌, String, ◌≡◌, refl, ◌⊎◌, true, false, none, some, [], ◌∷◌, arith,
}
use leadto_sales_re.Result.{Result, ok, err, crm_access_denied}
use leadto_sales_re.Session.{Session, fresh}
use leadto_sales_re.Lead.Stage.{PipelineStage, stage_of_value}
use leadto_sales_re.Lead.Mirror.{Lead, mark_synced, emptied, is_stale}
use leadto_sales_re.Lead.Repository
use leadto_sales_re.Lead.Repository.{by_crm_id, get, get_by_crm_id, save, to_domain, record_access}
use leadto_sales_re.Lead.Sync.{
  CrmClient, Snapshot, poll_once, upsert_from_snapshot, authorize, get_lead, force_resync,
  push_profile_update,
}
use leadto_sales_re.Lead.Sync.Upsert.{upsert_again}
use leadto_sales_re.Lead.Sync.Access.{denied, audited}
use leadto_sales_re.Lead.Guard.{check_before_decision, check_before_decision_fresh}
use leadto_sales_re.Lead.Profile.{
  ProfilePatch, BuyerProfile, Dimension, completeness, patch_is_empty,
  can_advance_to_recommendation,
}
use leadto_sales_re.Lead.Profile.Dimensions.{gate_directs, holds}
use leadto_sales_re.Lead.Capture.{Captured, update_profile, update_profile_outcome}
use leadto_sales_re.EventBus.{publish}
use leadto_sales_re.Tests.{clock, lead_db}

abbrev deal : String → ℕ → Snapshot
deal stage at = record {
  crm_lead_id = "d-1";
  organization_id = 7;
  pipeline_stage = stage;
  assigned_broker_id = none;
  lead_score = 60;
  updated_at = at;
  contact_reference = none;
}

-- One deal with a stage that the code does not know, after one that it knows.
abbrev pub client : CrmClient
client = record {
  list_leads_updated_since = λ o w. ok (deal "Qualified" 50 ∷ deal "Nuevo" 90 ∷ []);
  get_lead = λ id. ok (some (deal "Qualified" 50));
  update_stage = λ id stage. ok (deal stage 60);
}

abbrev pub mirrored : Lead
mirrored = record {
  id = 3;
  organization_id = 7;
  crm_lead_id = "d-1";
  pipeline_stage = PipelineStage.new;
  lead_score = 50;
  assigned_broker_id = none;
  contact_reference = some "+34600";
  synced_at = 30;
  created_at = 30;
  domain_events = [];
}

abbrev polled : Result ℕ × Session
polled = poll_once client clock 7 "system.sync_worker" (fresh lead_db)

upsert_again_example :
    let n = deal "Qualified" 50 in
    let (r, s') = upsert_from_snapshot (clock 0) 7 n (fresh lead_db) in
    (l : Lead) × (r ≡ ok l)
    × (l.pipeline_stage ≡ PipelineStage.qualified)
    × (l.synced_at ≡ 1000)
    × (by_crm_id 7 "d-1" s'.working.leads ≡ ok (some (emptied l)))
    × ((upsert_from_snapshot (clock 1) 7 n s').0 ≡ ok (record (emptied l) { synced_at = 1001 }))
unfolding to_domain stage_of_value
upsert_again_example =
    upsert_again (clock 0) (clock 1) 7 (deal "Qualified" 50) (fresh lead_db) PipelineStage.qualified
      (some mirrored) (tt, tt) refl refl

denied_example :
    (poll_once client clock 7 "intruder" (fresh lead_db) ≡ (
      err (crm_access_denied "intruder" "poll"),
      record {
        working = audited client clock "intruder" lead_db 7 "poll" none;
        committed = lead_db;
      },
    ))
    × (get_lead (clock 0) 7 "d-1" "intruder" (fresh lead_db) ≡ (
      err (crm_access_denied "intruder" "read"),
      record {
        working = audited client clock "intruder" lead_db 7 "read" (some "d-1");
        committed = lead_db;
      },
    ))
    × (force_resync client clock 3 "intruder" (fresh lead_db) ≡ (
      err (crm_access_denied "intruder" "force_resync"),
      record {
        working = audited client clock "intruder" lead_db 7 "force_resync" (some "d-1");
        committed = lead_db;
      },
    ))
    × (push_profile_update client clock 3 "intruder" PipelineStage.qualified (fresh lead_db) ≡ (
      err (crm_access_denied "intruder" "write"),
      record {
        working = audited client clock "intruder" lead_db 7 "write" (some "d-1");
        committed = lead_db;
      },
    ))
unfolding to_domain stage_of_value
denied_example =
    denied client clock "intruder" lead_db 7 3 "d-1" PipelineStage.qualified mirrored refl refl

abbrev guarded : Result Lead × Session
guarded = check_before_decision client clock 0 3 (fresh lead_db)

abbrev resynced : Lead
resynced = record mirrored {
  pipeline_stage = PipelineStage.qualified;
  lead_score = 60;
  synced_at = 1002;
}

check_before_decision_fresh_example : is_stale 0 1000 resynced ≡ false
unfolding check_before_decision is_stale force_resync get to_domain stage_of_value authorize
    record_access upsert_from_snapshot get_by_crm_id save mark_synced publish
check_before_decision_fresh_example =
    check_before_decision_fresh client clock 0 3 (fresh lead_db) resynced (omega arith) refl

abbrev patch : ProfilePatch
patch = record {
  budget = none;
  locations = some ("Centro" ∷ []);
  property_type = none;
  timeline = none;
  must_haves = none;
}

abbrev blank : BuyerProfile
blank = record {
  id = 100;
  lead_id = 3;
  budget = none;
  locations = [];
  property_type = none;
  timeline = none;
  must_haves = [];
  updated_at = 1000;
}

update_profile_outcome_example :
    Captured 20 clock 3 patch
      (fresh lead_db)
      mirrored
      none
      (update_profile 20 clock 3 patch (fresh lead_db))
unfolding to_domain stage_of_value patch_is_empty
update_profile_outcome_example =
    update_profile_outcome 20 clock 3 patch (fresh lead_db) mirrored none refl refl refl

gate_directs_example :
    let g = can_advance_to_recommendation 60 blank in
    ((g.can_advance ≡ true) × (60 ≤ completeness blank) × (g.missing_dimension ≡ none))
    ⊎ ((d : Dimension) × (g.can_advance ≡ false)
        × (completeness blank < 60)
        × (g.missing_dimension ≡ some d)
        × (holds d blank ≡ false))
gate_directs_example = gate_directs 60 blank (omega arith)
