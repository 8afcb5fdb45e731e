-- ===== src/Recommendation/Service.antt =====
-- app/modules/recommendation/application/recommendation_service.py. A search returns, beside the
-- result, the properties whose enrichment it left to a retry in the background.
pub mod Sound
use leadto_sales_re.Base.{
  ℕ, ◌+◌, String, not, Option, none, some, List, [], ◌∷◌, map, if◌then◌else◌,
}
use leadto_sales_re.Base.Amount.{ℤ}
use leadto_sales_re.Result.{Result, ok, err, incomplete_profile}
use leadto_sales_re.Database.{Database}
use leadto_sales_re.Session.{Action, pure, lift, gets, ◌>>=◌, ◌>>◌}
use leadto_sales_re.Lead.Mirror.{Lead}
use leadto_sales_re.Lead.Profile.{BuyerProfile, can_advance_to_recommendation}
use leadto_sales_re.Lead.ProfileStore.{get_by_lead_id}
use leadto_sales_re.Recommendation.{
  Property, RankedCandidate, RecommendationItem, RecommendationResult, NeighborhoodInsight,
  top_signals,
}
use leadto_sales_re.Recommendation.Ranking.{rank}
use leadto_sales_re.Recommendation.Retrieval.{filter_candidates, retrieve}
use leadto_sales_re.Recommendation.Explanation.{phrase}
use leadto_sales_re.Recommendation.Enrichment.{Answer, enrich_top3, insight_for}

-- What the service is built with. The functions are those of third parties: see the modules of the
-- parts that call them.
pub record RecommendationService : Type 0 where
  pub staleness_guard : Option (ℕ → Action Lead)
  pub threshold : ℕ
  pub quotient : ℤ → ℕ → ℕ → ℤ
  pub embed_query : BuyerProfile → List ℤ
  pub words : String → String
  pub nearby : ℕ → Answer
  pub semantic_top_n : ℕ
  pub top_k : ℕ

abbrev pub run_guard : Option (ℕ → Action Lead) → ℕ → Action (Unit {0})
run_guard none lead_id = pure tt
run_guard (some guard) lead_id = do l ← guard lead_id; pure tt

-- The profile that the gate lets pass.
abbrev pub gated : ℕ → ℕ → Option BuyerProfile → Result BuyerProfile
gated threshold lead_id none = err (incomplete_profile lead_id)
gated threshold lead_id (some p) =
    if not (can_advance_to_recommendation threshold p).can_advance
    then err (incomplete_profile lead_id)
    else ok p

-- `insights.get(property_id)`
abbrev enriched : ℕ → List (ℕ × Option NeighborhoodInsight) → Option NeighborhoodInsight
enriched id insights = elim (insight_for id insights) [ none ↦ none | some found ↦ found ]

module _ (service : RecommendationService) where
  abbrev item : List (ℕ × Option NeighborhoodInsight) → ℕ → RankedCandidate → RecommendationItem
  item insights n c = record {
    property_id = c.property_id;
    rank = n;
    score = c.score;
    explanation = phrase service.words (top_signals 3 c);
    neighborhood = enriched c.property_id insights;
  }

  -- `enumerate(zip(ranked, explanations), start=n)`
  abbrev pub items_from :
      List (ℕ × Option NeighborhoodInsight) → ℕ → List RankedCandidate → List RecommendationItem
  items_from insights n [] = []
  items_from insights n (c ∷ cs) = item insights n c ∷ items_from insights (n + 1) cs

  abbrev pub ids_of : List RankedCandidate → List ℕ
  ids_of = map (λ (c : RankedCandidate). c.property_id)

  unfoldable pub result_of : ℕ → List RankedCandidate → RecommendationResult × List ℕ
  unfolding enrich_top3 phrase top_signals
  result_of lead_id [] = (record { lead_id = lead_id; items = [] }, [])
  result_of lead_id (c ∷ cs) =
      let (insights, retries) = enrich_top3 service.nearby (ids_of (c ∷ cs)) in
      (record { lead_id = lead_id; items = items_from insights 1 (c ∷ cs) }, retries)

  abbrev pub ranked_for : BuyerProfile → Database → List Property → List RankedCandidate
  ranked_for p db candidates =
      let retrieved =
        retrieve service.quotient service.embed_query p service.semantic_top_n db candidates in
      rank p service.top_k retrieved

  abbrev pub recommend : ℕ → ℕ → BuyerProfile → Action (RecommendationResult × List ℕ)
  recommend organization_id lead_id p = do
    candidates ← λ s. (filter_candidates organization_id p s.working, s)
    gets (λ db. result_of lead_id (ranked_for p db candidates))

  unfoldable pub search : ℕ → ℕ → Action (RecommendationResult × List ℕ)
  unfolding result_of rank retrieve filter_candidates can_advance_to_recommendation
  search organization_id lead_id = do
    run_guard service.staleness_guard lead_id
    found ← get_by_lead_id lead_id
    p ← lift (gated service.threshold lead_id found)
    recommend organization_id lead_id p
