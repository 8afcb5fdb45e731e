-- ===== src/Lead/Guard.antt =====
-- app/modules/lead_qualification/application/staleness_guard.py
use leadto_sales_re.Base.{
  ℕ, ◌+◌, ◌≤◌, String, ◌≡◌, sym, ap, ◌∙◌, inl, inr, Bool, false, Option, none, some, arith,
  if◌then◌else◌, Bool-cases,
}
use leadto_sales_re.Event.{Stamp}
use leadto_sales_re.Result.{Result, ok, err}
use leadto_sales_re.EventBus.{publish}
use leadto_sales_re.Session.{◌>>=◌, Action, Session, pure, lift, continue, bind_ok}
use leadto_sales_re.Lead.Mirror.{Lead, is_stale, new_lead, mark_synced}
use leadto_sales_re.Lead.Repository.{get, add, save, get_by_crm_id, by_crm_id}
use leadto_sales_re.Lead.Sync.{
  CrmClient, Snapshot, force_resync, or_not_found, create_or_update, publish_refreshed, authorize,
  upsert_from_snapshot,
}

abbrev pub guard_actor : String
guard_actor = "staleness_guard"

-- `check_before_decision`
unfoldable pub check_before_decision : CrmClient → (ℕ → Stamp) → ℕ → ℕ → Action Lead
check_before_decision client clock threshold id = do
  found ← get id
  l ← lift (or_not_found id found)
  if is_stale threshold (clock 0).now l
      then force_resync client (λ k. clock (k + 1)) id guard_actor
      else pure l

upserted_now :
    (t : Stamp) (organization : ℕ) (n : Snapshot) (o : Result (Option Lead)) (s : Session)
    (l : Lead)
    → (continue o (create_or_update t organization n) s).0 ≡ ok l
    → l.synced_at ≡ t.now
unfolding new_lead mark_synced add save
upserted_now t organization n (err e) s l h = absurd (ground arith)
upserted_now t organization n (ok none) s l h = ground arith
upserted_now t organization n (ok (some x)) s l h = ground arith

refreshed_keeps :
    (l' l : Lead) (s : Session) → (publish_refreshed l' s).0 ≡ ok l → l.synced_at ≡ l'.synced_at
unfolding publish
refreshed_keeps l' l s h = ground arith

upsert_now :
    (t : Stamp) (organization : ℕ) (n : Snapshot) (s : Session) (l : Lead)
    → (upsert_from_snapshot t organization n s).0 ≡ ok l
    → l.synced_at ≡ t.now
unfolding upsert_from_snapshot get_by_crm_id
upsert_now t organization n s l h =
    upserted_now t organization n (by_crm_id organization n.crm_lead_id s.working.leads) s l h

module _ (client : CrmClient) (clock : ℕ → Stamp) (id : ℕ) (s : Session) where
  resynced_now :
      (actor : String) (l : Lead)
      → (force_resync client clock id actor s).0 ≡ ok l
      → l.synced_at ≡ (clock 1).now
  unfolding force_resync
  resynced_now actor l h =
      let (found, e1, h1) = bind_ok (get id s).0 _ (get id s).1 l h in
      let (x, e2, h2) = bind_ok (or_not_found id found) _ _ l h1 in
      let (u, e3, h3) =
        bind_ok
          (authorize (clock 0) x.organization_id actor "force_resync" (some x.crm_lead_id) _).0 _ _
          l h2 in
      let (answer, e4, h4) = bind_ok (client.get_lead x.crm_lead_id) _ _ l h3 in
      let (n, e5, h5) = bind_ok (or_not_found id answer) _ _ l h4 in
      let (l', e6, h6) =
        bind_ok (upsert_from_snapshot (clock 1) x.organization_id n _).0 _ _ l h5 in
      (refreshed_keeps l' l _ h6 ∙ upsert_now (clock 1) x.organization_id n _ l' e6)

module _ (client : CrmClient) (clock : ℕ → Stamp) (threshold id : ℕ) (s : Session) where
  -- Whenever the guard lets a decision run on a lead, the lead is not stale at the time of the
  -- check, if the clock does not run backwards meanwhile.
  pub check_before_decision_fresh :
      (l : Lead)
      → (clock 0).now ≤ (clock 2).now
      → (check_before_decision client clock threshold id s).0 ≡ ok l
      → is_stale threshold (clock 0).now l ≡ false
  unfolding check_before_decision is_stale get
  check_before_decision_fresh l t h =
      let (found, e1, h1) = bind_ok (get id s).0 _ (get id s).1 l h in
      let (x, e2, h2) = bind_ok (or_not_found id found) _ _ l h1 in
      let go : Bool → Result Lead = λ b.
        ((if b then force_resync client (λ k. clock (k + 1)) id guard_actor else pure x) s).0 in
      elim (Bool-cases (is_stale threshold (clock 0).now x)) [
        | inl stale ↦
            let again =
              resynced_now client (λ k. clock (k + 1)) id s guard_actor l
                (ap go (sym stale) ∙ h2) in
            ground arith
        | inr fine ↦
            let same : x ≡ l = ground arith in
            ap (is_stale threshold (clock 0).now) (sym same) ∙ fine
      ]
