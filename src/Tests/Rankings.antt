-- ===== src/Tests/Rankings.antt =====
-- Examples of the ranking at concrete properties and a concrete buyer.
use leadto_sales_re.Base.{ℕ, String, ◌≡◌, refl, true, none, some, List, [], ◌∷◌, ◌++◌, map, All}
use mathlib.Core.List.{Perm}
use leadto_sales_re.Base.Amount.{pos}
use leadto_sales_re.Base.Ratio.{AtMostTenths}
use leadto_sales_re.Base.Sort.{IsSorted}
use leadto_sales_re.Lead.Profile.{MoneyRange, BuyerProfile, PropertyType}
use leadto_sales_re.Recommendation.{Property, RankedCandidate, contribution, top_signals}
use leadto_sales_re.Recommendation.Ranking.{
  rank, ranking, score_candidate, scores_as_high, signals_of, budget_fit, zone_match,
  must_have_coverage, type_match,
}
use leadto_sales_re.Recommendation.Ranking.Order.{rank_best}
use leadto_sales_re.Recommendation.Ranking.Bounds.{score_candidate_at_most_one}
use leadto_sales_re.Recommendation.Explanation.{phrase, humanize}

abbrev pub home : ℕ → ℕ → String → Property
home id price zone = record {
  id = id;
  organization_id = 7;
  external_id = "p";
  price = pos price;
  zone = zone;
  property_type = PropertyType.apartment;
  features = "balcony" ∷ [];
  description = "";
  updated_at = 1;
}

abbrev pub homes : List Property
homes = home 1 100 "Centro" ∷ home 2 150 "Palermo" ∷ home 3 180 "Palermo" ∷ []

abbrev range : MoneyRange
range = record { minimum = pos 100; maximum = pos 200 }

abbrev pub buyer : BuyerProfile
buyer = record {
  id = 5;
  lead_id = 3;
  budget = some range;
  locations = "Palermo" ∷ [];
  property_type = some PropertyType.apartment;
  timeline = none;
  must_haves = "balcony" ∷ [];
  updated_at = 1;
}

rank_best_example :
    IsSorted scores_as_high (rank buyer 2 homes)
    × ((others : List RankedCandidate) × Perm
          (rank buyer 2 homes ++ others)
          (map (score_candidate buyer) homes)
        × All (λ x. All (λ y. scores_as_high x y ≡ true) others) (rank buyer 2 homes))
rank_best_example = rank_best buyer 2 homes

best_first : map (λ (c : RankedCandidate). c.property_id) (rank buyer 2 homes) ≡ 2 ∷ 3 ∷ []
unfolding rank ranking score_candidate signals_of budget_fit zone_match must_have_coverage
    type_match contribution
best_first = refl

score_candidate_at_most_one_example :
    AtMostTenths 10 (score_candidate buyer (home 2 150 "Palermo")).score
score_candidate_at_most_one_example = score_candidate_at_most_one buyer (home 2 150 "Palermo")

-- A property at the upper edge of the budget: a signal that contributes nothing is among the three
-- that are explained.
edge_explained :
    phrase
      (λ name. name)
      (top_signals 3 (score_candidate (record buyer { must_haves = [] }) (home 4 200 "Palermo")))
    ≡ "Esta propiedad destaca por estar en la zona que buscás, type_match y ajustarse a tu presupuesto."
unfolding score_candidate signals_of budget_fit zone_match must_have_coverage type_match
    contribution top_signals phrase humanize
edge_explained = refl
