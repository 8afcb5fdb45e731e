-- ===== src/Lead/Sync/Uncommitted.antt =====
-- The adapter and the guard leave the committing to their caller.
use leadto_sales_re.Base.{
  ℕ, ◌+◌, String, refl, not, Option, none, some, List, [], ◌∷◌, if◌then◌else◌,
}
use leadto_sales_re.Event.{Stamp, DomainEvent}
use leadto_sales_re.Result.{Result, ok, err, crm_access_denied}
use leadto_sales_re.EventBus.{publish}
use leadto_sales_re.Session.{pure, raise, lift}
use leadto_sales_re.Session.Uncommitted.{
  Uncommitted, bind-Uncommitted, then-Uncommitted, lift-Uncommitted, if_Uncommitted,
}
use leadto_sales_re.Lead.Stage.{PipelineStage, stage_value}
use leadto_sales_re.Lead.Mirror.{Lead, is_stale, emptied}
use leadto_sales_re.Lead.Repository.{get, get_by_crm_id, add, save, record_access, stage_or_raise}
use leadto_sales_re.Lead.Sync.{
  CrmClient, Snapshot, is_allowed, authorize, create, update, create_or_update,
  upsert_from_snapshot, or_not_found, publish_refreshed, publish_events, force_resync,
  push_profile_update,
}
use leadto_sales_re.Lead.Guard.{check_before_decision, guard_actor}

get-Uncommitted : (id : ℕ) → Uncommitted (get id)
unfolding get
get-Uncommitted id s = refl

pub authorize-Uncommitted :
    (t : Stamp) (organization : ℕ) (actor action : String) (crm_id : Option String)
    → Uncommitted (authorize t organization actor action crm_id)
unfolding authorize record_access
authorize-Uncommitted t organization actor action crm_id =
    then-Uncommitted (record_access t organization actor action crm_id (is_allowed actor))
      (if not (is_allowed actor) then raise (crm_access_denied actor action) else pure tt)
      (λ s. refl) (if_Uncommitted (not (is_allowed actor)) _ _ (λ s. refl) (λ s. refl))

created-Uncommitted :
    (t : Stamp) (organization : ℕ) (n : Snapshot) (found : Option Lead)
    → Uncommitted (create_or_update t organization n found)
unfolding add save
created-Uncommitted t organization n none = by_stage (stage_or_raise n.pipeline_stage)
  where
    by_stage : (r : Result PipelineStage) → Uncommitted (create t organization n r)
    by_stage (err e) s = refl
    by_stage (ok stage) s = refl
created-Uncommitted t organization n (some l) = by_stage (stage_or_raise n.pipeline_stage)
  where
    by_stage : (r : Result PipelineStage) → Uncommitted (update t l n r)
    by_stage (err e) s = refl
    by_stage (ok stage) s = refl

pub upsert-Uncommitted :
    (t : Stamp) (organization : ℕ) (n : Snapshot)
    → Uncommitted (upsert_from_snapshot t organization n)
unfolding upsert_from_snapshot get_by_crm_id
upsert-Uncommitted t organization n =
    bind-Uncommitted (get_by_crm_id organization n.crm_lead_id) (create_or_update t organization n)
      (λ s. refl) (created-Uncommitted t organization n)

pub published-Uncommitted : (es : List DomainEvent) → Uncommitted (publish_events es)
unfolding publish
published-Uncommitted [] s = refl
published-Uncommitted (e ∷ es) s = refl

refreshed-Uncommitted : (l : Lead) → Uncommitted (publish_refreshed l)
refreshed-Uncommitted l =
    then-Uncommitted (publish_events l.domain_events) (pure (emptied l))
      (published-Uncommitted l.domain_events) (λ s. refl)

module _ (client : CrmClient) (clock : ℕ → Stamp) (id : ℕ) (actor : String) where
  pub force_resync-Uncommitted : Uncommitted (force_resync client clock id actor)
  unfolding force_resync
  force_resync-Uncommitted = bind-Uncommitted (get id) _ (get-Uncommitted id) (λ found.
      bind-Uncommitted (lift (or_not_found id found)) _ (lift-Uncommitted (or_not_found id found))
        (λ l.
          then-Uncommitted
            (authorize (clock 0) l.organization_id actor "force_resync" (some l.crm_lead_id)) _
            (authorize-Uncommitted (clock 0) l.organization_id actor "force_resync"
              (some l.crm_lead_id))
            (bind-Uncommitted (lift (client.get_lead l.crm_lead_id)) _
              (lift-Uncommitted (client.get_lead l.crm_lead_id))
              (λ answer.
                bind-Uncommitted (lift (or_not_found id answer)) _
                  (lift-Uncommitted (or_not_found id answer))
                  (λ n.
                    bind-Uncommitted (upsert_from_snapshot (clock 1) l.organization_id n) _
                      (upsert-Uncommitted (clock 1) l.organization_id n)
                      (λ x. refreshed-Uncommitted x))))))

  pub push_profile_update-Uncommitted :
      (stage : PipelineStage) → Uncommitted (push_profile_update client clock id actor stage)
  unfolding push_profile_update
  push_profile_update-Uncommitted stage = bind-Uncommitted (get id) _ (get-Uncommitted id) (λ found.
      bind-Uncommitted (lift (or_not_found id found)) _ (lift-Uncommitted (or_not_found id found))
        (λ l.
          then-Uncommitted
            (authorize (clock 0) l.organization_id actor "write" (some l.crm_lead_id)) _
            (authorize-Uncommitted (clock 0) l.organization_id actor "write" (some l.crm_lead_id))
            (bind-Uncommitted (lift (client.update_stage l.crm_lead_id (stage_value stage))) _
              (lift-Uncommitted (client.update_stage l.crm_lead_id (stage_value stage)))
              (λ n.
                bind-Uncommitted (upsert_from_snapshot (clock 1) l.organization_id n) _
                  (upsert-Uncommitted (clock 1) l.organization_id n)
                  (λ x. refreshed-Uncommitted x)))))

pub check_before_decision-Uncommitted :
    (client : CrmClient) (clock : ℕ → Stamp) (threshold id : ℕ)
    → Uncommitted (check_before_decision client clock threshold id)
unfolding check_before_decision
check_before_decision-Uncommitted client clock threshold id =
    bind-Uncommitted (get id) _ (get-Uncommitted id) (λ found.
      bind-Uncommitted (lift (or_not_found id found)) _ (lift-Uncommitted (or_not_found id found))
        (λ l.
          if_Uncommitted (is_stale threshold (clock 0).now l) _ _
            (force_resync-Uncommitted client (λ k. clock (k + 1)) id guard_actor) (λ s. refl)))
