-- ===== src/Recommendation/Enrichment/Retry.antt =====
-- What the enrichment gives and what it leaves to the background.
use leadto_sales_re.Base.{
  ℕ, zero, suc, ◌+◌, ◌<◌, String, ◌≡◌, refl, ap, ◌∙◌, ◌⊎◌, inl, inr, Bool, true, ◌&&◌, Option, none,
  some, List, [], ◌∷◌, ◌++◌, map, arith, ◌==◌, if◌then◌else◌, ==_iff, Bool-cases, Option-cases,
  select, any,
}
use leadto_sales_re.Event.{Stamp}
use leadto_sales_re.Database.{Database}
use leadto_sales_re.EventBus.{publish, outbox_row}
use leadto_sales_re.Recommendation.{NeighborhoodInsight}
use leadto_sales_re.Recommendation.Enrichment.{
  Answer, insight_of, missed, enrich_top3, insight_for, later, late_insight, publish_late_insight,
  retry_from, retry_and_publish,
}

-- The answers from the attempt on, for the turns that are left: all of them missing, or the first
-- that is there.
abbrev pub AllMissed : (ℕ → Answer) → ℕ → ℕ → Type 0
AllMissed nearby attempt zero = Unit
AllMissed nearby attempt (suc left) = (nearby attempt ≡ none) × AllMissed nearby (attempt + 1) left

abbrev pub FirstAnswer : (ℕ → Answer) → ℕ → ℕ → List String → Type 0
FirstAnswer nearby attempt left places =
    (failures : ℕ) × (failures < left)
    × AllMissed nearby attempt failures
    × (nearby (attempt + failures) ≡ some places)

abbrev pub with_event : Stamp → ℕ → ℕ → List String → Database → Database
with_event t lead_id property_id places db = record db {
  outbox_events = db.outbox_events ++ outbox_row (late_insight t lead_id property_id places) ∷ [];
}

module _ (t : Stamp) (lead_id property_id : ℕ) (nearby : ℕ → Answer) where
  retry_from_lem :
      (attempt left : ℕ) (db : Database)
      → (AllMissed nearby attempt left
          × (retry_from t lead_id property_id nearby attempt left db ≡ db))
        ⊎ ((places : List String) × FirstAnswer nearby attempt left places
            × (retry_from t lead_id property_id nearby attempt left db
                ≡ with_event t lead_id property_id places db))
  unfolding retry_from publish_late_insight publish
  retry_from_lem attempt zero db = inl (tt, refl)
  retry_from_lem attempt (suc left) db = elim (Option-cases (nearby attempt)) [
    | inr (places, e) ↦
        let here : nearby (attempt + 0) ≡ some places = ground (arith, e) in
        inr (places, (0, ground arith, tt, here), rw e refl)
    | inl e ↦ elim (retry_from_lem (attempt + 1) left db) [
      | inl (missing, same) ↦ inl ((e, missing), rw e same)
      | inr (places, (failures, few, missing, found), same) ↦
          let there : nearby (attempt + suc failures) ≡ some places =
            ap nearby (omega arith) ∙ found in
          inr (places, (suc failures, omega (arith, few), (e, missing), there), rw e same)
    ]
  ]

  -- The retry of a property asks at most `max_retries` times. Either all of these calls fail, and
  -- the database stays as it is; or some call after the failed ones succeeds, and the one event with
  -- its places is added to the outbox, and nothing else.
  pub retry_and_publish_outcome :
      (max_retries : ℕ) (db : Database)
      → (AllMissed nearby 1 max_retries
          × (retry_and_publish t lead_id property_id nearby max_retries db ≡ db))
        ⊎ ((places : List String) × FirstAnswer nearby 1 max_retries places
            × (retry_and_publish t lead_id property_id nearby max_retries db
                ≡ with_event t lead_id property_id places db))
  unfolding retry_and_publish
  retry_and_publish_outcome max_retries db = retry_from_lem 1 max_retries db

later_known :
    (o : Option (Option NeighborhoodInsight)) (v : Option NeighborhoodInsight)
    → (o ≡ none) ⊎ (o ≡ some v)
    → later o v ≡ v
later_known none v h = refl
later_known (some x) v (inl e) = absurd (ground arith)
later_known (some x) v (inr e) = ground arith

module _ (nearby : ℕ → Answer) where
  abbrev pair : ℕ → ℕ × Option NeighborhoodInsight
  pair id = (id, insight_of id (nearby id))

  abbrev pub is_among : ℕ → List ℕ → Bool
  is_among id = any (λ k. k == id)

  insight_for-pairs :
      (id : ℕ) (ids : List ℕ)
      → insight_for id (map pair ids)
        ≡ (if is_among id ids then some (insight_of id (nearby id)) else none)
  insight_for-pairs id [] = refl
  insight_for-pairs id (k ∷ ids) =
      let v = insight_of id (nearby id) in
      let ih = insight_for-pairs id ids in
      let found = insight_for id (map pair ids) in
      let known : (found ≡ none) ⊎ (found ≡ some v) = elim (Bool-cases (is_among id ids)) [
        | inl a ↦ inr (ih ∙ rw a refl)
        | inr a ↦ inl (ih ∙ rw a refl)
      ] in
      elim (Bool-cases (k == id)) [
        | inl e ↦
            let same : k ≡ id = (==_iff k id).0 e in
            rw e (
              ap some
                (ap (λ j. later found (insight_of j (nearby j))) same ∙ later_known found v known))
        | inr e ↦ rw e ih
      ]

  is_among-select :
      (p : ℕ → Bool) (id : ℕ) (ids : List ℕ)
      → is_among id (select p ids) ≡ (is_among id ids && p id)
  is_among-select p id [] = refl
  is_among-select p id (k ∷ ids) = elim (Bool-cases (k == id)) [
    | inl e ↦
        let same : k ≡ id = (==_iff k id).0 e in
        let alike : p k ≡ p id = ap p same in ground (arith, is_among-select p id ids)
    | inr e ↦ ground (arith, is_among-select p id ids)
  ]

  -- Each property that is asked for gets the insight of its own lookup, whatever became of the
  -- others', and a retry is scheduled for exactly those whose lookup failed.
  pub enrich_top3_isolated :
      (ids : List ℕ) (id : ℕ)
      → is_among id ids ≡ true
      → (insight_for id (enrich_top3 nearby ids).0 ≡ some (insight_of id (nearby id)))
        × (is_among id (enrich_top3 nearby ids).1 ≡ missed (nearby id))
  unfolding enrich_top3
  enrich_top3_isolated ids id h = (
    insight_for-pairs id ids ∙ rw h refl,
    is_among-select (λ k. missed (nearby k)) id ids ∙ rw h refl,
  )
