-- ===== src/Lead/Sync/Untouched.antt =====
-- The adapter and the guard leave the inbox of the worker alone.
use leadto_sales_re.Base.{ℕ, ◌+◌, String, not, Option, none, some, List, [], ◌∷◌, if◌then◌else◌}
use leadto_sales_re.Event.{Stamp, DomainEvent}
use leadto_sales_re.Result.{Result, ok, err, crm_access_denied}
use leadto_sales_re.Database.{Database, InboxRow}
use leadto_sales_re.EventBus.{publish}
use leadto_sales_re.Session.{pure, raise, lift}
use leadto_sales_re.Session.Untouched.{
  Untouched, bind-Untouched, then-Untouched, lift-Untouched, if-Untouched,
}
use leadto_sales_re.Lead.Stage.{PipelineStage, stage_value}
use leadto_sales_re.Lead.Mirror.{Lead, is_stale, emptied}
use leadto_sales_re.Lead.Repository.{get, get_by_crm_id, add, save, record_access, stage_or_raise}
use leadto_sales_re.Lead.Sync.{
  CrmClient, Snapshot, is_allowed, authorize, create, update, create_or_update,
  upsert_from_snapshot, or_not_found, publish_refreshed, publish_events, force_resync,
  push_profile_update,
}
use leadto_sales_re.Lead.Guard.{check_before_decision, guard_actor}

abbrev pub inbox : Database → List InboxRow
inbox db = db.inbox_records

get-Untouched : (id : ℕ) → Untouched inbox (get id)
unfolding get
get-Untouched id x s p = p

pub authorize-Untouched :
    (t : Stamp) (organization : ℕ) (actor action : String) (crm_id : Option String)
    → Untouched inbox (authorize t organization actor action crm_id)
unfolding authorize record_access
authorize-Untouched t organization actor action crm_id =
    then-Untouched inbox (record_access t organization actor action crm_id (is_allowed actor))
      (if not (is_allowed actor) then raise (crm_access_denied actor action) else pure tt)
      (λ x s p. p) (if-Untouched inbox (not (is_allowed actor)) _ _ (λ x s p. p) (λ x s p. p))

created-Untouched :
    (t : Stamp) (organization : ℕ) (n : Snapshot) (found : Option Lead)
    → Untouched inbox (create_or_update t organization n found)
unfolding add save
created-Untouched t organization n none = by_stage (stage_or_raise n.pipeline_stage)
  where
    by_stage : (r : Result PipelineStage) → Untouched inbox (create t organization n r)
    by_stage (err e) x s p = p
    by_stage (ok stage) x s p = p
created-Untouched t organization n (some l) = by_stage (stage_or_raise n.pipeline_stage)
  where
    by_stage : (r : Result PipelineStage) → Untouched inbox (update t l n r)
    by_stage (err e) x s p = p
    by_stage (ok stage) x s p = p

pub upsert-Untouched :
    (t : Stamp) (organization : ℕ) (n : Snapshot)
    → Untouched inbox (upsert_from_snapshot t organization n)
unfolding upsert_from_snapshot get_by_crm_id
upsert-Untouched t organization n =
    bind-Untouched inbox (get_by_crm_id organization n.crm_lead_id)
      (create_or_update t organization n) (λ x s p. p) (created-Untouched t organization n)

pub published-Untouched : (es : List DomainEvent) → Untouched inbox (publish_events es)
unfolding publish
published-Untouched [] x s p = p
published-Untouched (e ∷ es) x s p = p

refreshed-Untouched : (l : Lead) → Untouched inbox (publish_refreshed l)
refreshed-Untouched l =
    then-Untouched inbox (publish_events l.domain_events) (pure (emptied l))
      (published-Untouched l.domain_events) (λ x s p. p)

module _ (client : CrmClient) (clock : ℕ → Stamp) (id : ℕ) (actor : String) where
  pub force_resync-Untouched : Untouched inbox (force_resync client clock id actor)
  unfolding force_resync
  force_resync-Untouched = bind-Untouched inbox (get id) _ (get-Untouched id) (λ found.
      bind-Untouched inbox (lift (or_not_found id found)) _
        (lift-Untouched inbox (or_not_found id found))
        (λ l.
          then-Untouched inbox
            (authorize (clock 0) l.organization_id actor "force_resync" (some l.crm_lead_id)) _
            (authorize-Untouched (clock 0) l.organization_id actor "force_resync"
              (some l.crm_lead_id))
            (bind-Untouched inbox (lift (client.get_lead l.crm_lead_id)) _
              (lift-Untouched inbox (client.get_lead l.crm_lead_id))
              (λ answer.
                bind-Untouched inbox (lift (or_not_found id answer)) _
                  (lift-Untouched inbox (or_not_found id answer))
                  (λ n.
                    bind-Untouched inbox (upsert_from_snapshot (clock 1) l.organization_id n) _
                      (upsert-Untouched (clock 1) l.organization_id n)
                      (λ x. refreshed-Untouched x))))))

  pub push_profile_update-Untouched :
      (stage : PipelineStage) → Untouched inbox (push_profile_update client clock id actor stage)
  unfolding push_profile_update
  push_profile_update-Untouched stage = bind-Untouched inbox (get id) _ (get-Untouched id) (λ found.
      bind-Untouched inbox (lift (or_not_found id found)) _
        (lift-Untouched inbox (or_not_found id found))
        (λ l.
          then-Untouched inbox
            (authorize (clock 0) l.organization_id actor "write" (some l.crm_lead_id)) _
            (authorize-Untouched (clock 0) l.organization_id actor "write" (some l.crm_lead_id))
            (bind-Untouched inbox (lift (client.update_stage l.crm_lead_id (stage_value stage))) _
              (lift-Untouched inbox (client.update_stage l.crm_lead_id (stage_value stage)))
              (λ n.
                bind-Untouched inbox (upsert_from_snapshot (clock 1) l.organization_id n) _
                  (upsert-Untouched (clock 1) l.organization_id n) (λ x. refreshed-Untouched x)))))

pub check_before_decision-Untouched :
    (client : CrmClient) (clock : ℕ → Stamp) (threshold id : ℕ)
    → Untouched inbox (check_before_decision client clock threshold id)
unfolding check_before_decision
check_before_decision-Untouched client clock threshold id =
    bind-Untouched inbox (get id) _ (get-Untouched id) (λ found.
      bind-Untouched inbox (lift (or_not_found id found)) _
        (lift-Untouched inbox (or_not_found id found))
        (λ l.
          if-Untouched inbox (is_stale threshold (clock 0).now l) _ _
            (force_resync-Untouched client (λ k. clock (k + 1)) id guard_actor) (λ x s p. p)))
