-- ===== src/Recommendation/Enrichment.antt =====
-- app/modules/recommendation/application/neighborhood_enrichment.py. An answer of the Maps client is
-- what its call gives within the time allowed: none stands for a timeout or an exception.
pub mod Retry
use leadto_sales_re.Base.{
  ℕ, zero, suc, ◌+◌, String, Bool, false, not, Option, none, some, List, [], ◌∷◌, map, ◌==◌,
  if◌then◌else◌, is_some, select,
}
use leadto_sales_re.Event.{DomainEvent, Stamp, neighborhood_enriched}
use leadto_sales_re.Database.{Database}
use leadto_sales_re.EventBus.{publish}
use leadto_sales_re.Session.{commit, in_session, ◌>>=◌, ◌>>◌}
use leadto_sales_re.Recommendation.{NeighborhoodInsight}

abbrev pub Answer : Type 0
Answer = Option (List String)

abbrev pub insight_of : ℕ → Answer → Option NeighborhoodInsight
insight_of id none = none
insight_of id (some places) =
    some (record { property_id = id; nearby_places = places; partial = false })

-- The properties whose lookup failed: a retry in the background is scheduled for each.
abbrev missed : Answer → Bool
missed answer = not (is_some answer)

unfoldable pub enrich_top3 : (ℕ → Answer) → List ℕ → List (ℕ × Option NeighborhoodInsight) × List ℕ
enrich_top3 nearby ids =
    (map (λ id. (id, insight_of id (nearby id))) ids, select (λ id. missed (nearby id)) ids)

-- `insights.get(property_id)`: of a dictionary that was built from the pairs, where a later pair
-- for the same key replaces an earlier one.
abbrev later :
    Option (Option NeighborhoodInsight) → Option NeighborhoodInsight → Option NeighborhoodInsight
later none found = found
later (some newer) found = newer

abbrev pub insight_for :
    ℕ → List (ℕ × Option NeighborhoodInsight) → Option (Option NeighborhoodInsight)
insight_for id [] = none
insight_for id ((key, value) ∷ rest) =
    let found = insight_for id rest in if key == id then some (later found value) else found

abbrev late_insight : Stamp → ℕ → ℕ → List String → DomainEvent
late_insight t lead_id property_id places = record {
  event_id = t.new_id;
  occurred_at = t.now;
  organization_id = none;
  fields = neighborhood_enriched lead_id property_id places;
}

-- `_publish_late_insight`: a transaction of its own.
unfoldable pub publish_late_insight : Stamp → ℕ → ℕ → List String → Database → Database
unfolding publish commit
publish_late_insight t lead_id property_id places db =
    (in_session (do publish (late_insight t lead_id property_id places ∷ []); commit) db).1

module _ (t : Stamp) (lead_id property_id : ℕ) where
  -- An answer is published and ends the loop; without one, the turns that are left follow.
  abbrev pub after_attempt : Answer → Database → Database → Database
  after_attempt none rest db = rest
  after_attempt (some places) rest db = publish_late_insight t lead_id property_id places db

  -- The turns of `_retry_and_publish` that are left; `attempt` numbers the answers of the client.
  unfoldable pub retry_from : (ℕ → Answer) → ℕ → ℕ → Database → Database
  unfolding publish_late_insight
  retry_from nearby attempt zero db = db
  retry_from nearby attempt (suc left) db =
      let rest = retry_from nearby (attempt + 1) left db in after_attempt (nearby attempt) rest db

  unfoldable pub retry_and_publish : (ℕ → Answer) → ℕ → Database → Database
  unfolding retry_from
  retry_and_publish nearby max_retries db = retry_from nearby 1 max_retries db
