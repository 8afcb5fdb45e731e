-- ===== src/Lead/Mirror.antt =====
-- The aggregate `Lead` of app/modules/lead_qualification/domain/models.py. A score is only stored
-- and copied: a number stands for it.
use leadto_sales_re.Base.{
  ℕ, ◌+◌, ◌*◌, ◌≤◌, String, ◌≡◌, ◌≢◌, ◌⊎◌, Bool, false, not, Option, none, some, List, [], ◌∷◌,
  ◌++◌, arith, ltb, if◌then◌else◌,
}
use leadto_sales_re.Event.{DomainEvent, Stamp, event_at, crm_stage_synced}
use leadto_sales_re.Lead.Stage.{PipelineStage, stage_value, is_stage, is_stage_iff}

pub record Lead : Type 0 where
  pub id : ℕ
  pub organization_id : ℕ
  pub crm_lead_id : String
  pub pipeline_stage : PipelineStage
  pub lead_score : ℕ
  pub assigned_broker_id : Option ℕ
  pub contact_reference : Option String
  pub synced_at : ℕ
  pub created_at : ℕ
  pub domain_events : List DomainEvent

-- `Lead(…)` of a snapshot, with one reading of the clock for both times.
unfoldable pub new_lead : Stamp → ℕ → String → PipelineStage → ℕ → Option ℕ → Option String → Lead
new_lead t organization crm_id stage score broker contact = record {
  id = t.new_id;
  organization_id = organization;
  crm_lead_id = crm_id;
  pipeline_stage = stage;
  lead_score = score;
  assigned_broker_id = broker;
  contact_reference = contact;
  synced_at = t.now;
  created_at = t.now;
  domain_events = [];
}

-- `pull_domain_events`
abbrev pub emptied : Lead → Lead
emptied l = record l { domain_events = [] }

abbrev pub microseconds : ℕ → ℕ
microseconds seconds = seconds * 1000000

-- `is_stale`: `now - synced_at > threshold`, with the subtraction on the other side.
unfoldable pub is_stale : ℕ → ℕ → Lead → Bool
is_stale threshold_seconds now l = ltb (l.synced_at + microseconds threshold_seconds) now

abbrev kept : Option String → Option String → Option String
kept none old = old
kept (some new) old = some new

-- `mark_synced`, with the time of the call as `synced_at`.
unfoldable pub mark_synced : Stamp → PipelineStage → ℕ → Option ℕ → Option String → Lead → Lead
mark_synced t stage score broker contact l =
    let l' : Lead = record l {
      pipeline_stage = stage;
      lead_score = score;
      assigned_broker_id = broker;
      contact_reference = kept contact l.contact_reference;
      synced_at = t.now;
    } in
    if not (is_stage stage l.pipeline_stage)
    then record l' {
      domain_events =
          l'.domain_events
          ++ event_at t l.organization_id
              (crm_stage_synced l.id l.crm_lead_id (stage_value stage) t.now)
            ∷ [];
    }
    else l'

module _ (t : Stamp) (stage : PipelineStage) (score : ℕ) (broker : Option ℕ)
    (contact : Option String) (l : Lead) where
  abbrev pub stage_synced : DomainEvent
  stage_synced =
      event_at t l.organization_id (crm_stage_synced l.id l.crm_lead_id (stage_value stage) t.now)

  -- A snapshot is announced exactly if it changes the stage, and the mirror then shows it.
  pub mark_synced_outcome :
      let l' = mark_synced t stage score broker contact l in
      (l'.pipeline_stage ≡ stage)
      × (l'.lead_score ≡ score)
      × (l'.assigned_broker_id ≡ broker)
      × (l'.synced_at ≡ t.now)
      × (((stage ≡ l.pipeline_stage) × (l'.domain_events ≡ l.domain_events))
          ⊎ ((stage ≢ l.pipeline_stage)
              × (l'.domain_events ≡ l.domain_events ++ stage_synced ∷ [])))
  unfolding mark_synced
  mark_synced_outcome = ground (arith, is_stage_iff stage l.pipeline_stage)

  -- The same snapshot again refreshes the time and announces nothing.
  pub mark_synced_again :
      (t' : Stamp)
      → let l' = emptied (mark_synced t stage score broker contact l) in
        mark_synced t' stage score broker contact l' ≡ record l' { synced_at = t'.now }
  unfolding mark_synced
  mark_synced_again t' = ground (arith, is_stage_iff stage stage)

  -- A lead that was synchronized for less than the threshold is not stale.
  pub mark_synced-is_stale :
      (threshold now : ℕ)
      → now ≤ t.now + microseconds threshold
      → is_stale threshold now (mark_synced t stage score broker contact l) ≡ false
  unfolding mark_synced is_stale
  mark_synced-is_stale threshold now h = ground arith
