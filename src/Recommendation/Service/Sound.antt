-- ===== src/Recommendation/Service/Sound.antt =====
-- What a search returns.
use leadto_sales_re.Base.{
  ℕ, zero, suc, ◌+◌, ◌≤◌, ◌≡◌, refl, sym, ap, ◌∙◌, subst, inl, inr, true, Option, none, some, List,
  [], ◌∷◌, map, arith, Bool-cases, length, All, All-map,
}
use leadto_sales_re.Base.Sort.{sort, All-sort, All-take}
use leadto_sales_re.Result.{ok}
use leadto_sales_re.Database.{Database}
use leadto_sales_re.Session.{Session, bind_ok}
use leadto_sales_re.Lead.Profile.{BuyerProfile, can_advance_to_recommendation}
use leadto_sales_re.Lead.ProfileStore.{get_by_lead_id, profile_of}
use leadto_sales_re.Recommendation.{
  Property, RankedCandidate, RecommendationItem, RecommendationResult, NeighborhoodInsight,
}
use leadto_sales_re.Recommendation.Ranking.{score_candidate, scores_as_high, rank, ranking}
use leadto_sales_re.Recommendation.Ranking.Order.{length-rank}
use leadto_sales_re.Recommendation.Retrieval.{filter_candidates, retrieve}
use leadto_sales_re.Recommendation.Retrieval.Filter.{Qualifies, filter_candidates_sound}
use leadto_sales_re.Recommendation.Retrieval.Candidates.{All-retrieve}
use leadto_sales_re.Recommendation.Enrichment.{enrich_top3}
use leadto_sales_re.Recommendation.Service.{
  RecommendationService, ids_of, run_guard, gated, items_from, result_of, ranked_for, search,
}

-- The identifier is that of a property that the database holds for the organization and that meets
-- the profile's hard constraints.
abbrev pub Recommendable : ℕ → BuyerProfile → Database → ℕ → Type 0
Recommendable organization p db id = (c : Property) × (c.id ≡ id) × Qualifies organization p db c

abbrev pub numbers_from : ℕ → ℕ → List ℕ
numbers_from n zero = []
numbers_from n (suc count) = n ∷ numbers_from (n + 1) count

abbrev pub ids : List RecommendationItem → List ℕ
ids = map (λ (i : RecommendationItem). i.property_id)

abbrev pub ranks : List RecommendationItem → List ℕ
ranks = map (λ (i : RecommendationItem). i.rank)

module _ (organization : ℕ) (p : BuyerProfile) (db : Database) where
  All-rank :
      (top_k : ℕ) (cs : List Property)
      → All (Qualifies organization p db) cs
      → All
          (λ (r : RankedCandidate). Recommendable organization p db r.property_id)
          (rank p top_k cs)
  unfolding rank ranking score_candidate
  All-rank top_k cs h =
      let good = λ (r : RankedCandidate). Recommendable organization p db r.property_id in
      All-take scores_as_high good top_k (sort scores_as_high (map (score_candidate p) cs)) (
        All-sort scores_as_high good (map (score_candidate p) cs)
          (All-map (score_candidate p) good cs (scored cs h)))
    where
      scored :
          (xs : List Property)
          → All (Qualifies organization p db) xs
          → All (λ c. Recommendable organization p db (score_candidate p c).property_id) xs
      scored [] q = tt
      scored (x ∷ xs) q = ((x, refl, q.0), scored xs q.1)

module _ (service : RecommendationService) (organization : ℕ) (p : BuyerProfile)
    (db : Database) where
  items_from_lem :
      (insights : List (ℕ × Option NeighborhoodInsight)) (n : ℕ) (rs : List RankedCandidate)
      → All (λ (r : RankedCandidate). Recommendable organization p db r.property_id) rs
      → All
          (λ (i : RecommendationItem). Recommendable organization p db i.property_id)
          (items_from service insights n rs)
        × (ranks (items_from service insights n rs) ≡ numbers_from n (length rs))
        × (length (items_from service insights n rs) ≡ length rs)
  items_from_lem insights n [] h = (tt, refl, refl)
  items_from_lem insights n (r ∷ rs) h =
      let (good, numbered, as_many) = items_from_lem insights (n + 1) rs h.1 in
      ((h.0, good), ap (λ xs. n ∷ xs) numbered, ap suc as_many)

gated_ok :
    (threshold lead : ℕ) (found : Option BuyerProfile) (p : BuyerProfile)
    → gated threshold lead found ≡ ok p
    → (found ≡ some p) × ((can_advance_to_recommendation threshold p).can_advance ≡ true)
gated_ok threshold lead none p h = absurd (ground arith)
gated_ok threshold lead (some x) p h =
    let advance = λ (q : BuyerProfile). (can_advance_to_recommendation threshold q).can_advance in
    elim (Bool-cases (advance x)) [
      | inl e ↦ let same : x ≡ p = ground arith in (ap some same, ap advance (sym same) ∙ e)
      | inr e ↦ absurd (ground arith)
    ]

-- What the items of a result promise, for at most `top_k` of them.
abbrev pub IsAnswer : ℕ → BuyerProfile → Database → ℕ → List RecommendationItem → Type 0
IsAnswer organization p db top_k items =
    All (λ (i : RecommendationItem). Recommendable organization p db i.property_id) items
    × (ranks items ≡ numbers_from 1 (length items))
    × (length items ≤ top_k)

module _ (service : RecommendationService) (organization lead : ℕ) where
  result_of-IsAnswer :
      (p : BuyerProfile) (db : Database) (rs : List RankedCandidate)
      → All (λ (r : RankedCandidate). Recommendable organization p db r.property_id) rs
      → length rs ≤ service.top_k
      → IsAnswer organization p db service.top_k (result_of service lead rs).0.items
  unfolding result_of
  result_of-IsAnswer p db [] h short = (tt, refl, short)
  result_of-IsAnswer p db (r ∷ rs) h short =
      let insights = (enrich_top3 service.nearby (ids_of service (r ∷ rs))).0 in
      let (good, numbered, as_many) =
        items_from_lem service organization p db insights 1 (r ∷ rs) h in
      (good, numbered ∙ ap (numbers_from 1) (sym as_many), omega (arith, as_many))

  ranked_for-IsAnswer :
      (p : BuyerProfile) (db : Database) (cs : List Property)
      → filter_candidates organization p db ≡ ok cs
      → IsAnswer organization p db service.top_k
          (result_of service lead (ranked_for service p db cs)).0.items
  ranked_for-IsAnswer p db cs h =
      let retrieved =
        retrieve service.quotient service.embed_query p service.semantic_top_n db cs in
      result_of-IsAnswer p db (ranked_for service p db cs)
        (All-rank organization p db service.top_k retrieved (
          All-retrieve service.quotient service.embed_query p db (Qualifies organization p db)
            service.semantic_top_n cs (filter_candidates_sound organization p db cs h)))
        (omega (arith, length-rank p service.top_k retrieved))

  -- Whatever the guard, the clients and the database, a search that succeeds has found the lead's
  -- profile after the guard, the gate has let it pass, and the items are numbered from one on, at
  -- most `top_k`, each for a property that the table holds for the organization, as the search sees it
  -- after the guard, and that meets the profile's hard constraints.
  pub search_sound :
      (s : Session) (result : RecommendationResult) (retries : List ℕ)
      → (search service organization lead s).0 ≡ ok (result, retries)
      → (p : BuyerProfile) × (profile_of lead (run_guard service.staleness_guard lead s).1.working
          ≡ ok (some p))
        × ((can_advance_to_recommendation service.threshold p).can_advance ≡ true)
        × IsAnswer organization p
            (run_guard service.staleness_guard lead s).1.working
            service.top_k
            result.items
  unfolding search get_by_lead_id
  search_sound s result retries h =
      let s1 = (run_guard service.staleness_guard lead s).1 in
      let (u, e1, h1) = bind_ok (run_guard service.staleness_guard lead s).0 _ s1 _ h in
      let (found, e2, h2) = bind_ok (profile_of lead s1.working) _ s1 _ h1 in
      let (p, e3, h3) = bind_ok (gated service.threshold lead found) _ s1 _ h2 in
      let (cs, e4, h4) = bind_ok (filter_candidates organization p s1.working) _ s1 _ h3 in
      let (same, open_gate) = gated_ok service.threshold lead found p e3 in
      let whole : (result_of service lead (ranked_for service p s1.working cs))
          ≡ (result, retries) =
        ground arith in
      (
        p,
        e2 ∙ ap ok same,
        open_gate,
        subst (IsAnswer organization p s1.working service.top_k) (ap (λ o. o.0.items) whole)
            (ranked_for-IsAnswer p s1.working cs e4),
      )
