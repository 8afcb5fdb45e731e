-- ===== src/Lead/Wiring.antt =====
-- app/modules/lead_qualification/wiring.py. `connect` gives the HTTP calls to the CRM of a
-- configuration, or to the default address where there is none.
pub mod Isolation
use leadto_sales_re.Base.{
  ℕ, ◌+◌, String, ◌||◌, Option, none, some, List, [], ◌∷◌, map, str_eq, if◌then◌else◌,
}
use leadto_sales_re.Event.{Stamp}
use leadto_sales_re.Result.{Result, Error, ok, err, value_error, lead_not_found}
use leadto_sales_re.Database.{Database, OrganizationRow}
use leadto_sales_re.Session.{Action, Session, fresh, pure, lift, commit, in_session, ◌>>=◌, ◌>>◌}
use leadto_sales_re.Organization.{OrganizationConfig, CrmConfig}
use leadto_sales_re.Organization.Repository.{get_config}
use leadto_sales_re.Lead.Stage.{qualified}
use leadto_sales_re.Lead.Mirror.{Lead}
use leadto_sales_re.Lead.Repository.{get}
use leadto_sales_re.Lead.Sync.{CrmClient, poll_once, push_profile_update}
use leadto_sales_re.Lead.WacrmClient.{Python, Http, wacrm_client}

abbrev pub event_actor : String
event_actor = "system.event_bus"

-- `except LeadNotFoundError`: only the push raises it, and the return leaves without a commit.
abbrev pub dropped : Result (Unit {0}) → Result (Unit {0})
dropped (ok u) = ok u
dropped (err (lead_not_found lead)) = ok tt
dropped (err e) = err e

abbrev pub or_dropped : Action (Unit {0}) → Action (Unit {0})
or_dropped m s = let (r, s') = m s in (dropped r, s')

abbrev pub worker_actor : String
worker_actor = "system.sync_worker"

-- What `session.commit()` raises in the session of an organization, if it raises: an error of the
-- database, on the rows that the session would leave.
abbrev pub Commits : Type 0
Commits = ℕ → Database → Option Error

-- Where the commit raises, leaving the session rolls its rows back.
abbrev pub commit_or_raise : Option Error → Session → Database
commit_or_raise none s = s.working
commit_or_raise (some e) s = s.committed

-- `total += await poll_once(…)`, then the commit, under `except Exception`: a poll that raises adds
-- nothing to the total, while one that returns has added its leads when the commit is tried.
abbrev pub add_upserted : ℕ → (Database → Option Error) → Result ℕ × Session → ℕ × Database
add_upserted total commits (ok n, s) = (total + n, commit_or_raise (commits s.working) s)
add_upserted total commits (err e, s) = (total, s.committed)

abbrev pub crm_of_config : Option OrganizationConfig → Option CrmConfig
crm_of_config none = none
crm_of_config (some config) = config.crm

abbrev pub blank_config : Error
blank_config = value_error "CrmConfig"

module _ (python : Python) (connect : Option CrmConfig → Http python) where
  abbrev pub client_of : ℕ → Option CrmConfig → Result CrmClient
  client_of organization_id none = ok (wacrm_client python (connect none) none)
  client_of organization_id (some crm) =
      if str_eq crm.base_url "" || str_eq crm.api_key ""
      then err blank_config
      else ok (wacrm_client python (connect (some crm)) (some organization_id))

  -- `_build_wacrm_client`
  unfoldable pub build_wacrm_client : ℕ → Action CrmClient
  build_wacrm_client organization_id = do
    config ← get_config organization_id
    lift (client_of organization_id (crm_of_config config))

  abbrev pub push_found : (ℕ → Stamp) → ℕ → Option Lead → Action (Unit {0})
  push_found clock lead_id none = pure tt
  push_found clock lead_id (some l) = do
    client ← build_wacrm_client l.organization_id
    pushed ← push_profile_update client clock lead_id event_actor qualified
    commit

  -- `handle_profile_completed`
  unfoldable pub handle_profile_completed :
      (ℕ → Stamp) → ℕ → Database → Result (Unit {0}) × Database
  unfolding build_wacrm_client
  handle_profile_completed clock lead_id =
      in_session do found ← get lead_id; or_dropped (push_found clock lead_id found)

  -- The poll of one organization, in its session, up to the commit.
  abbrev pub poll_organization : (ℕ → Stamp) → ℕ → Action ℕ
  poll_organization clock organization_id = do
    client ← build_wacrm_client organization_id
    poll_once client clock organization_id worker_actor

  -- The loop over the organizations, each at its own times.
  unfoldable pub sync_each : Commits → (ℕ → ℕ → Stamp) → List ℕ → ℕ × Database → ℕ × Database
  unfolding build_wacrm_client
  sync_each commits clocks [] state = state
  sync_each commits clocks (o ∷ os) (total, db) =
      sync_each commits clocks os
        (add_upserted total (commits o) (poll_organization (clocks o) o (fresh db)))

  -- `sync_all_organizations_once`
  unfoldable pub sync_all_organizations_once : Commits → (ℕ → ℕ → Stamp) → Database → ℕ × Database
  unfolding sync_each
  sync_all_organizations_once commits clocks db =
      sync_each commits clocks (map (λ (o : OrganizationRow). o.id) db.organizations) (0, db)
