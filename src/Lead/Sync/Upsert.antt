-- ===== src/Lead/Sync/Upsert.antt =====
-- What an upsert leaves of a snapshot, and that it may be repeated.
use leadto_sales_re.Base.{
  ℕ, String, ◌≡◌, refl, sym, ap, ◌∙◌, inl, inr, true, Option, none, some, List, [], ◌∷◌, arith,
  eq_refl, ==_refl, Option-cases, select,
}
use leadto_sales_re.Base.Table.{
  get_row, set_row, UniqueKeys, get_row-select, select-set_row, select-append_new, select_holds,
}
use leadto_sales_re.Event.{Stamp}
use leadto_sales_re.Result.{Result, ok, Result-cases}
use leadto_sales_re.Database.{LeadRow}
use leadto_sales_re.Session.{Session, scalar_one_or_none}
use leadto_sales_re.Lead.Stage.{
  PipelineStage, stage_of_value, stage_of_value-stage_value, is_stage_iff,
}
use leadto_sales_re.Lead.Mirror.{
  Lead, new_lead, mark_synced, emptied, mark_synced_again, mark_synced_outcome,
}
use leadto_sales_re.Lead.Repository.{
  lead_key, has_crm_id, map_ok, save_at, by_crm_id, one_lead, to_domain, to_row, write, add, save,
  save_rows, get_by_crm_id, add_lead,
}
use leadto_sales_re.Lead.Sync.{Snapshot, upsert_from_snapshot}

abbrev crm_rows : ℕ → String → List LeadRow → List LeadRow
crm_rows organization crm_id = select (has_crm_id organization crm_id)

one_lead-none : (rows : List LeadRow) → one_lead (scalar_one_or_none rows) ≡ ok none → rows ≡ []
one_lead-none [] h = refl
one_lead-none (r ∷ []) h = elim (Result-cases (to_domain r)) [
  | inl (l, e) ↦ absurd (ground arith)
  | inr (x, e) ↦ absurd (ground arith)
]
one_lead-none (r ∷ r' ∷ rs) h = absurd (ground arith)

one_lead-some :
    (rows : List LeadRow) (l : Lead)
    → one_lead (scalar_one_or_none rows) ≡ ok (some l)
    → (r : LeadRow) × (rows ≡ r ∷ []) × (to_domain r ≡ ok l)
one_lead-some [] l h = absurd (ground arith)
one_lead-some (r ∷ []) l h = elim (Result-cases (to_domain r)) [
  | inl (l', e) ↦ (r, refl, ground arith)
  | inr (x, e) ↦ absurd (ground arith)
]
one_lead-some (r ∷ r' ∷ rs) l h = absurd (ground arith)

-- What `save` does not write.
record IsRowOf (l : Lead) (r : LeadRow) : Type 0 where
  id : r.id ≡ l.id
  organization : r.organization_id ≡ l.organization_id
  crm_id : r.crm_lead_id ≡ l.crm_lead_id
  created : r.created_at ≡ l.created_at

to_domain-IsRowOf : (r : LeadRow) (l : Lead) → to_domain r ≡ ok l → IsRowOf l r
unfolding to_domain
to_domain-IsRowOf r l h = elim (Option-cases (stage_of_value r.pipeline_stage)) [
  | inl e ↦ absurd (ground arith)
  | inr (s, e) ↦ ground arith
]

to_domain-write : (l : Lead) (r : LeadRow) → IsRowOf l r → to_domain (write l r) ≡ ok (emptied l)
unfolding to_domain write
to_domain-write l r h = rw (stage_of_value-stage_value l.pipeline_stage) (ground arith)

to_domain-to_row : (l : Lead) → to_domain (to_row l) ≡ ok (emptied l)
unfolding to_domain to_row
to_domain-to_row l = rw (stage_of_value-stage_value l.pipeline_stage) refl

module _ (organization : ℕ) (crm_id : String) (rows : List LeadRow) where
  -- A lead that was found by its CRM identifier and then saved is found as it was saved.
  pub by_crm_id-save_rows :
      (l l' : Lead)
      → UniqueKeys lead_key rows
      → by_crm_id organization crm_id rows ≡ ok (some l)
      → (l'.id ≡ l.id)
        × (l'.organization_id ≡ l.organization_id)
        × (l'.crm_lead_id ≡ l.crm_lead_id)
        × (l'.created_at ≡ l.created_at)
      → by_crm_id organization crm_id (save_rows l' rows) ≡ ok (some (emptied l'))
  by_crm_id-save_rows l l' u h same =
      let (r, only, e) = one_lead-some (crm_rows organization crm_id rows) l h in
      let is_row = to_domain-IsRowOf r l e in
      let p = has_crm_id organization crm_id in
      let id : r.id ≡ l'.id = is_row.id ∙ sym same.0 in
      let here : get_row lead_key l'.id rows ≡ some r =
        ap (λ k. get_row lead_key k rows) (sym id) ∙ get_row-select lead_key p rows r u only in
      let selected : crm_rows organization crm_id (set_row lead_key l'.id (write l') rows)
          ≡ write l' r ∷ [] =
        ap (λ k. crm_rows organization crm_id (set_row lead_key k (write l') rows)) (sym id)
        ∙ select-set_row lead_key p (write l') rows r u only
            (unfold write in select_holds lead_key p rows r only) in
      let mine : IsRowOf l' r = record {
        id = id;
        organization = is_row.organization ∙ sym same.1;
        crm_id = is_row.crm_id ∙ sym same.2;
        created = is_row.created ∙ sym same.3;
      } in
      ap (λ o. by_crm_id organization crm_id (save_at l' rows o)) here
      ∙ (ap (λ rs. one_lead (scalar_one_or_none rs)) selected
          ∙ ap (map_ok some) (to_domain-write l' r mine))

  -- A lead that was not found and then added is found as it was added.
  pub by_crm_id-add_lead :
      (l : Lead)
      → by_crm_id organization crm_id rows ≡ ok none
      → has_crm_id organization crm_id (to_row l) ≡ true
      → by_crm_id organization crm_id (add_lead l rows) ≡ ok (some (emptied l))
  by_crm_id-add_lead l h p =
      ap (λ rs. one_lead (scalar_one_or_none rs))
        (select-append_new lead_key (has_crm_id organization crm_id) rows (to_row l)
          (one_lead-none (crm_rows organization crm_id rows) h) p)
      ∙ ap (map_ok some) (to_domain-to_row l)

mark_synced_identity :
    (t : Stamp) (stage : PipelineStage) (score : ℕ) (broker : Option ℕ) (contact : Option String)
    (l : Lead)
    → let l' = mark_synced t stage score broker contact l in
      (l'.id ≡ l.id)
      × (l'.organization_id ≡ l.organization_id)
      × (l'.crm_lead_id ≡ l.crm_lead_id)
      × (l'.created_at ≡ l.created_at)
unfolding mark_synced
mark_synced_identity t stage score broker contact l = ground arith

created_again :
    (t t' : Stamp) (organization : ℕ) (crm_id : String) (stage : PipelineStage) (score : ℕ)
    (broker : Option ℕ) (contact : Option String)
    → let l = emptied (new_lead t organization crm_id stage score broker contact) in
      mark_synced t' stage score broker contact l ≡ record l { synced_at = t'.now }
unfolding mark_synced new_lead
created_again t t' organization crm_id stage score broker contact =
    ground (arith, is_stage_iff stage stage)

module _ (t : Stamp) (organization : ℕ) (n : Snapshot) (s : Session) (stage : PipelineStage) where
  abbrev upsert : Result Lead × Session
  upsert = upsert_from_snapshot t organization n s

  abbrev lookup : Session → Result (Option Lead)
  lookup s' = by_crm_id organization n.crm_lead_id s'.working.leads

  abbrev synced : Lead → Lead
  synced = mark_synced t stage n.lead_score n.assigned_broker_id n.contact_reference

  upsert_found :
      (l : Lead)
      → stage_of_value n.pipeline_stage ≡ some stage
      → lookup s ≡ ok (some l)
      → upsert ≡ (
        ok (synced l),
        record s { working = record s.working { leads = save_rows (synced l) s.working.leads } },
      )
  unfolding upsert_from_snapshot get_by_crm_id save
  upsert_found l h f = rw f (rw h refl)

  abbrev created : Lead
  created =
      new_lead t organization n.crm_lead_id stage n.lead_score n.assigned_broker_id
        n.contact_reference

  upsert_missing :
      stage_of_value n.pipeline_stage ≡ some stage
      → lookup s ≡ ok none
      → upsert ≡ (
        ok created,
        record s { working = record s.working { leads = add_lead created s.working.leads } },
      )
  unfolding upsert_from_snapshot get_by_crm_id add
  upsert_missing h f = rw f (rw h refl)

  mirrored_found :
      (l : Lead)
      → UniqueKeys lead_key s.working.leads
      → lookup s ≡ ok (some l)
      → stage_of_value n.pipeline_stage ≡ some stage
      → lookup upsert.1 ≡ ok (some (emptied (synced l)))
  mirrored_found l u f h =
      ap (λ (o : Result Lead × Session). lookup o.1) (upsert_found l h f)
      ∙ by_crm_id-save_rows organization n.crm_lead_id s.working.leads l (synced l) u f
          (mark_synced_identity t stage n.lead_score n.assigned_broker_id n.contact_reference l)

  mirrored_missing :
      lookup s ≡ ok none
      → stage_of_value n.pipeline_stage ≡ some stage
      → lookup upsert.1 ≡ ok (some (emptied created))
  mirrored_missing f h =
      ap (λ (o : Result Lead × Session). lookup o.1) (upsert_missing h f)
      ∙ by_crm_id-add_lead organization n.crm_lead_id s.working.leads created f
          (unfold to_row new_lead in rw (==_refl organization) (eq_refl n.crm_lead_id))

-- Where the leads have distinct identifiers, the lookup by the CRM's identifier succeeds and the
-- stage's name is known: the upsert succeeds, the snapshot's lead is then found as it was returned,
-- and the same snapshot again changes its time of synchronization only and announces nothing.
pub upsert_again :
    (t t' : Stamp) (organization : ℕ) (n : Snapshot) (s : Session) (stage : PipelineStage)
    (found : Option Lead)
    → UniqueKeys lead_key s.working.leads
    → by_crm_id organization n.crm_lead_id s.working.leads ≡ ok found
    → stage_of_value n.pipeline_stage ≡ some stage
    → let (r, s') = upsert_from_snapshot t organization n s in
      (l : Lead) × (r ≡ ok l)
      × (l.pipeline_stage ≡ stage)
      × (l.synced_at ≡ t.now)
      × (by_crm_id organization n.crm_lead_id s'.working.leads ≡ ok (some (emptied l)))
      × ((upsert_from_snapshot t' organization n s').0
          ≡ ok (record (emptied l) { synced_at = t'.now }))
upsert_again t t' organization n s stage (some l) u f h =
    let score = n.lead_score in
    let broker = n.assigned_broker_id in
    let contact = n.contact_reference in
    let l' = mark_synced t stage score broker contact l in
    let s' = (upsert_from_snapshot t organization n s).1 in
    let seen = mirrored_found t organization n s stage l u f h in
    (
      l',
      ap (λ (o : Result Lead × Session). o.0) (upsert_found t organization n s stage l h f),
      (mark_synced_outcome t stage score broker contact l).0,
      (mark_synced_outcome t stage score broker contact l).3,
      seen,
      ap (λ (o : Result Lead × Session). o.0)
            (upsert_found t' organization n s' stage (emptied l') h seen)
          ∙ ap ok (mark_synced_again t stage score broker contact l t'),
    )
upsert_again t t' organization n s stage none u f h =
    let l' = created t organization n s stage in
    let s' = (upsert_from_snapshot t organization n s).1 in
    let seen = mirrored_missing t organization n s stage f h in
    (
      l',
      ap (λ (o : Result Lead × Session). o.0) (upsert_missing t organization n s stage h f),
      unfold new_lead in refl,
      unfold new_lead in refl,
      seen,
      ap (λ (o : Result Lead × Session). o.0)
            (upsert_found t' organization n s' stage (emptied l') h seen)
          ∙ ap ok (
              created_again t t' organization n.crm_lead_id stage n.lead_score n.assigned_broker_id
                n.contact_reference),
    )
