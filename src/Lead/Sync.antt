-- ===== src/Lead/Sync.antt =====
-- app/modules/lead_qualification/application/lead_sync.py, with the CRM's HTTP client as a
-- parameter.
pub mod Uncommitted
pub mod Untouched
pub mod Cursor
pub mod Progress
pub mod Watermark
pub mod Upsert
pub mod Access
use leadto_sales_re.Base.{
  ℕ, ◌+◌, ◌-◌, min, String, Bool, true, false, not, Option, none, some, List, [], ◌∷◌, ◌++◌, str_eq,
  ltb, if◌then◌else◌, length, any,
}
use leadto_sales_re.Event.{DomainEvent, Stamp}
use leadto_sales_re.Result.{
  Result, Error, ok, err, value_error, lead_not_found, crm_access_denied, incomplete_profile,
}
use leadto_sales_re.Session.{Action, pure, raise, lift, ◌>>=◌, ◌>>◌}
use leadto_sales_re.EventBus.{publish}
use leadto_sales_re.Lead.Stage.{PipelineStage, stage_value}
use leadto_sales_re.Lead.Mirror.{Lead, new_lead, mark_synced, emptied}
use leadto_sales_re.Lead.Repository
use leadto_sales_re.Lead.Repository.{
  add, save, get, get_by_crm_id, get_watermark, advance_watermark, record_access, stage_or_raise,
}

-- `WacrmLeadSnapshot`
pub record Snapshot : Type 0 where
  pub crm_lead_id : String
  pub organization_id : ℕ
  pub pipeline_stage : String
  pub assigned_broker_id : Option ℕ
  pub lead_score : ℕ
  pub updated_at : ℕ
  pub contact_reference : Option String

-- The calls of `WacrmClient`.
pub record CrmClient : Type 0 where
  pub list_leads_updated_since : ℕ → ℕ → Result (List Snapshot)
  pub get_lead : String → Result (Option Snapshot)
  pub update_stage : String → String → Result Snapshot

abbrev pub allowed_actors : List String
allowed_actors =
    "system.sync_worker" ∷ "system.event_bus" ∷ "coordinator" ∷ "staleness_guard"
    ∷ "profile_capture" ∷ []

abbrev pub is_allowed : String → Bool
is_allowed actor = any (str_eq actor) allowed_actors

-- `_authorize`: the access is recorded before it is denied.
unfoldable pub authorize : Stamp → ℕ → String → String → Option String → Action (Unit {0})
authorize t organization actor action crm_id = do
  record_access t organization actor action crm_id (is_allowed actor)
  if not (is_allowed actor) then raise (crm_access_denied actor action) else pure tt

abbrev pub create : Stamp → ℕ → Snapshot → Result PipelineStage → Action Lead
create t organization n (err e) = raise e
create t organization n (ok stage) =
    let l =
      new_lead t organization n.crm_lead_id stage n.lead_score n.assigned_broker_id
        n.contact_reference in
    add l >> pure l

abbrev pub update : Stamp → Lead → Snapshot → Result PipelineStage → Action Lead
update t l n (err e) = raise e
update t l n (ok stage) =
    let l' = mark_synced t stage n.lead_score n.assigned_broker_id n.contact_reference l in
    save l' >> pure l'

abbrev pub create_or_update : Stamp → ℕ → Snapshot → Option Lead → Action Lead
create_or_update t organization n none = create t organization n (stage_or_raise n.pipeline_stage)
create_or_update t organization n (some l) = update t l n (stage_or_raise n.pipeline_stage)

-- `_upsert_from_snapshot`
unfoldable pub upsert_from_snapshot : Stamp → ℕ → Snapshot → Action Lead
upsert_from_snapshot t organization n =
    get_by_crm_id organization n.crm_lead_id >>= create_or_update t organization n

-- The variables of the loop of `poll_once`.
pub record Poll : Type 0 where
  pub max_seen : ℕ
  pub events : List DomainEvent
  pub earliest_skipped : Option ℕ

abbrev earlier : Option ℕ → ℕ → Option ℕ
earlier none at = some at
earlier (some e) at = if ltb at e then some at else some e

abbrev pub skipped : ℕ → Poll → Poll
skipped at p = record p { earliest_skipped = earlier p.earliest_skipped at }

abbrev pub taken : ℕ → Lead → Poll → Poll
taken at l p = record p {
  max_seen = if ltb p.max_seen at then at else p.max_seen;
  events = p.events ++ l.domain_events;
}

abbrev pub is_value_error : Error → Bool
is_value_error (value_error what) = true
is_value_error (incomplete_profile lead) = true
is_value_error _ = false

-- `except ValueError`: the snapshot is skipped; any other exception ends the poll.
abbrev pub next : ℕ → Poll → Result Lead → Result Poll
next at p (ok l) = ok (taken at l p)
next at p (err e) = if is_value_error e then ok (skipped at p) else err e

abbrev pub poll_step : Stamp → ℕ → Snapshot → Poll → Action Poll
poll_step t organization n p s =
    let (r, s') = upsert_from_snapshot t organization n s in (next n.updated_at p r, s')

abbrev pub later : (ℕ → Stamp) → ℕ → Stamp
later clock k = clock (k + 1)

unfoldable pub poll_loop : (ℕ → Stamp) → ℕ → List Snapshot → Poll → Action Poll
poll_loop clock organization [] p = pure p
poll_loop clock organization (n ∷ ns) p =
    poll_step (clock 0) organization n p >>= poll_loop (later clock) organization ns

-- `earliest_skipped - timedelta(microseconds=1)`; an instant is not before the epoch.
abbrev pub bounded : ℕ → Option ℕ → ℕ
bounded seen none = seen
bounded seen (some e) = min seen (e - 1)

abbrev pub publish_events : List DomainEvent → Action (Unit {0})
publish_events [] = pure tt
publish_events (e ∷ es) = publish (e ∷ es)

-- What follows the loop.
abbrev pub close_poll : ℕ → ℕ → ℕ → Poll → Action (Unit {0})
close_poll now organization watermark p =
    let seen = bounded p.max_seen p.earliest_skipped in
    (if ltb watermark seen then advance_watermark now organization seen else pure tt)
    >> publish_events p.events

abbrev pub poll_start : ℕ → Poll
poll_start watermark = record { max_seen = watermark; events = []; earliest_skipped = none }

-- `poll_once`; the snapshots' parts of the clock come after the first two.
unfoldable pub poll_once : CrmClient → (ℕ → Stamp) → ℕ → String → Action ℕ
poll_once client clock organization actor = do
  authorize (clock 0) organization actor "poll" none
  watermark ← get_watermark organization
  snapshots ← lift (client.list_leads_updated_since organization watermark)
  p ← poll_loop (later (later clock)) organization snapshots (poll_start watermark)
  close_poll (clock 1).now organization watermark p
  pure (length snapshots)

unfoldable pub get_lead : Stamp → ℕ → String → String → Action (Option Lead)
get_lead t organization crm_id actor =
    authorize t organization actor "read" (some crm_id) >> get_by_crm_id organization crm_id

abbrev pub or_not_found : {A : Type 0} → ℕ → Option A → Result A
or_not_found id none = err (lead_not_found id)
or_not_found id (some l) = ok l

-- The events of a lead that was refreshed go out, and the lead without them comes back.
abbrev pub publish_refreshed : Lead → Action Lead
publish_refreshed l = publish_events l.domain_events >> pure (emptied l)

unfoldable pub force_resync : CrmClient → (ℕ → Stamp) → ℕ → String → Action Lead
force_resync client clock id actor = do
  found ← get id
  l ← lift (or_not_found id found)
  authorize (clock 0) l.organization_id actor "force_resync" (some l.crm_lead_id)
  answer ← lift (client.get_lead l.crm_lead_id)
  n ← lift (or_not_found id answer)
  refreshed ← upsert_from_snapshot (clock 1) l.organization_id n
  publish_refreshed refreshed

-- `push_profile_update`
unfoldable pub push_profile_update :
    CrmClient → (ℕ → Stamp) → ℕ → String → PipelineStage → Action Lead
push_profile_update client clock id actor stage = do
  found ← get id
  l ← lift (or_not_found id found)
  authorize (clock 0) l.organization_id actor "write" (some l.crm_lead_id)
  n ← lift (client.update_stage l.crm_lead_id (stage_value stage))
  refreshed ← upsert_from_snapshot (clock 1) l.organization_id n
  publish_refreshed refreshed
