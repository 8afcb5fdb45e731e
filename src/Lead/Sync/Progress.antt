-- ===== src/Lead/Sync/Progress.antt =====
-- What the loop of `poll_once` does to its variables.
use leadto_sales_re.Base.{
  ℕ, ◌≤◌, ◌≡◌, refl, sym, ap, ◌∙◌, subst, ◌≢◌, ◌⊎◌, inl, inr, Option, none, some, List, [], ◌∷◌,
  arith, Bool-cases, All,
}
use leadto_sales_re.Event.{Stamp}
use leadto_sales_re.Result.{Result, ok, err, Result-cases}
use leadto_sales_re.Session.{Session, continue}
use leadto_sales_re.Lead.Stage.{stage_of_value}
use leadto_sales_re.Lead.Mirror.{Lead}
use leadto_sales_re.Lead.Repository.{get_by_crm_id, by_crm_id, save, add}
use leadto_sales_re.Lead.Sync.{
  Snapshot, Poll, create_or_update, is_value_error, next, skipped, taken, poll_loop, later,
  upsert_from_snapshot,
}

-- What a run of the loop has skipped, seen from an instant.
abbrev pub Before : Option ℕ → ℕ → Type 0
Before none at = ⊥
Before (some e) at = e ≤ at

refused :
    (t : Stamp) (organization : ℕ) (n : Snapshot) (o : Result (Option Lead)) (s : Session)
    (l : Lead)
    → (continue o (create_or_update t organization n) s).0 ≡ ok l
    → stage_of_value n.pipeline_stage ≢ none
refused t organization n (err e) s l h = absurd (ground arith)
refused t organization n (ok none) s l h = ground arith
refused t organization n (ok (some x)) s l h = ground arith

upsert_unknown :
    (t : Stamp) (organization : ℕ) (n : Snapshot) (s : Session) (l : Lead)
    → (upsert_from_snapshot t organization n s).0 ≡ ok l
    → stage_of_value n.pipeline_stage ≢ none
unfolding upsert_from_snapshot get_by_crm_id
upsert_unknown t organization n s l h =
    refused t organization n (by_crm_id organization n.crm_lead_id s.working.leads) s l h

upsert_cursors :
    (t : Stamp) (organization : ℕ) (n : Snapshot) (s : Session)
    → (upsert_from_snapshot t organization n s).1.working.sync_cursors ≡ s.working.sync_cursors
unfolding upsert_from_snapshot get_by_crm_id save add
upsert_cursors t organization n s = ground arith

-- What a part of the loop does to the loop's variables.
pub record Progress (p p' : Poll) : Type 0 where
  pub seen : p.max_seen ≤ p'.max_seen
  pub before : (at : ℕ) → Before p.earliest_skipped at → Before p'.earliest_skipped at

Progress-refl : (p : Poll) → Progress p p
Progress-refl p = record { seen = omega arith; before = λ at h. h }

Progress-trans : (p q r : Poll) → Progress p q → Progress q r → Progress p r
Progress-trans p q r h k = record {
  seen = omega (arith, h.seen, k.seen);
  before = λ at b. k.before at (h.before at b);
}

skipped-Progress :
    (at : ℕ) (p : Poll) → Progress p (skipped at p) × Before (skipped at p).earliest_skipped at
skipped-Progress at p =
    (record { seen = omega arith; before = λ at' b. ground arith }, ground arith)

taken-Progress :
    (at : ℕ) (l : Lead) (p : Poll) → Progress p (taken at l p) × (at ≤ (taken at l p).max_seen)
taken-Progress at l p = (record { seen = ground arith; before = λ at' b. b }, ground arith)

-- A snapshot of the part was taken, or it was skipped.
abbrev pub Seen : Poll → Snapshot → Type 0
Seen p n =
    ((stage_of_value n.pipeline_stage ≢ none) × (n.updated_at ≤ p.max_seen))
    ⊎ Before p.earliest_skipped n.updated_at

Seen-later : (p p' : Poll) (n : Snapshot) → Progress p p' → Seen p n → Seen p' n
Seen-later p p' n h (inl (known, le)) = inl (known, omega (arith, h.seen))
Seen-later p p' n h (inr b) = inr (h.before n.updated_at b)

next-Progress :
    (n : Snapshot) (p p' : Poll) (r : Result Lead)
    → ((l : Lead) → r ≡ ok l → stage_of_value n.pipeline_stage ≢ none)
    → next n.updated_at p r ≡ ok p'
    → Progress p p' × Seen p' n
next-Progress n p p' (ok l) known h =
    let e : taken n.updated_at l p ≡ p' = ground arith in
    let (progress, le) = taken-Progress n.updated_at l p in
    subst (λ q. Progress p q × Seen q n) e (progress, inl (known l refl, le))
next-Progress n p p' (err x) known h = elim (Bool-cases (is_value_error x)) [
  | inr other ↦ absurd (ground arith)
  | inl caught ↦
      let e : skipped n.updated_at p ≡ p' = ground arith in
      let (progress, b) = skipped-Progress n.updated_at p in
      subst (λ q. Progress p q × Seen q n) e (progress, inr b)
]

pub loop-Progress :
    (clock : ℕ → Stamp) (organization : ℕ) (ns : List Snapshot) (p p' : Poll) (s s' : Session)
    → poll_loop clock organization ns p s ≡ (ok p', s')
    → Progress p p' × All (Seen p') ns × (s'.working.sync_cursors ≡ s.working.sync_cursors)
unfolding poll_loop
loop-Progress clock organization [] p p' s s' h =
    let e : p ≡ p' = ground arith in
    (
      subst (Progress p) e (Progress-refl p),
      tt,
      ap (λ (o : Result Poll × Session). o.1.working.sync_cursors) (sym h),
    )
loop-Progress clock organization (n ∷ ns) p p' s s' h =
    let (r, s1) = upsert_from_snapshot (clock 0) organization n s in
    let rest = λ (x : Poll). poll_loop (later clock) organization ns x in
    elim (Result-cases (next n.updated_at p r)) [
      | inr (x, e) ↦ absurd (ground arith)
      | inl (p1, e) ↦
          let (first, here) =
            next-Progress n p p1 r (upsert_unknown (clock 0) organization n s) e in
          let (after, others, kept) =
            loop-Progress (later clock) organization ns p1 p' s1 s'
              (ap (λ x. continue x rest s1) (sym e) ∙ h) in
          (
            Progress-trans p p1 p' first after,
            (Seen-later p1 p' n after here, others),
            kept ∙ upsert_cursors (clock 0) organization n s,
          )
    ]
