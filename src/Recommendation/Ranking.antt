-- ===== src/Recommendation/Ranking.antt =====
-- `WeightedRankingEngine` of app/modules/recommendation/application/ranking_engine.py.
pub mod Order
pub mod Bounds
use leadto_sales_re.Base.{
  ℕ, ◌+◌, ◌-◌, String, Bool, not, Option, none, some, List, [], ◌∷◌, map, ◌==◌, if◌then◌else◌,
  length, take, select,
}
use leadto_sales_re.Base.Amount.{ℤ, leb_ℤ, difference}
use leadto_sales_re.Base.Ratio.{Ratio, whole, add, leb_ratio}
use leadto_sales_re.Base.Sort.{sort}
use leadto_sales_re.Lead.Profile.{MoneyRange, PropertyType, BuyerProfile}
use leadto_sales_re.Recommendation.{
  Property, RankingSignal, RankedCandidate, contribution, contains, is_property_type, within,
}

-- The weights, in tenths.
abbrev pub tenths : ℕ → Ratio
tenths n = record { numerator = n; below = 9 }

abbrev pub budget_fit_weight : ℕ
budget_fit_weight = 4

abbrev pub zone_match_weight : ℕ
zone_match_weight = 3

abbrev pub must_have_coverage_weight : ℕ
must_have_coverage_weight = 2

abbrev pub type_match_weight : ℕ
type_match_weight = 1

abbrev pub one_if : Bool → Ratio
one_if b = if b then whole 1 else whole 0

-- |a - b|
abbrev pub distance : ℕ → ℕ → ℕ
distance a b = (a - b) + (b - a)

-- `1 - |price - midpoint| / (span / 2)` for a price u above the minimum and v below the maximum:
-- the span is u + v, and twice the distance from the midpoint is |u - v|.
abbrev fit : ℕ → ℕ → Ratio
fit u v =
    if u + v == 0
    then whole 1
    else record { numerator = (u + v) - distance u v; below = (u + v) - 1 }

abbrev budget_fit_in : MoneyRange → ℤ → Ratio
budget_fit_in budget price =
    if not (leb_ℤ budget.minimum budget.maximum)
    then whole 0
    else if not (within budget price)
    then whole 0
    else fit (difference price budget.minimum) (difference budget.maximum price)

unfoldable pub budget_fit : Option MoneyRange → Property → Ratio
budget_fit none candidate = whole 0
budget_fit (some budget) candidate = budget_fit_in budget candidate.price

-- No location is stated: the test fails as well.
unfoldable pub zone_match : List String → Property → Ratio
zone_match locations candidate = one_if (contains candidate.zone locations)

unfoldable pub must_have_coverage : List String → Property → Ratio
must_have_coverage [] candidate = whole 0
must_have_coverage (x ∷ xs) candidate = record {
  numerator = length (select (λ feature. contains feature candidate.features) (x ∷ xs));
  below = length xs;
}

unfoldable pub type_match : Option PropertyType → Property → Ratio
type_match none candidate = whole 0
type_match (some wanted) candidate = one_if (is_property_type candidate.property_type wanted)

abbrev pub signal : String → ℕ → Ratio → RankingSignal
signal name weight value = record { name = name; weight = tenths weight; value = value }

unfoldable pub signals_of : BuyerProfile → Property → List RankingSignal
unfolding budget_fit zone_match must_have_coverage type_match
signals_of p c =
    signal "budget_fit" budget_fit_weight (budget_fit p.budget c)
    ∷ signal "zone_match" zone_match_weight (zone_match p.locations c)
    ∷ signal "must_have_coverage" must_have_coverage_weight (must_have_coverage p.must_haves c)
    ∷ signal "type_match" type_match_weight (type_match p.property_type c)
    ∷ []

-- `sum(...)` from the left
abbrev pub sum_from : Ratio → List Ratio → Ratio
sum_from total [] = total
sum_from total (r ∷ rs) = sum_from (add total r) rs

unfoldable pub score_candidate : BuyerProfile → Property → RankedCandidate
unfolding signals_of contribution add
score_candidate p c = record {
  property_id = c.id;
  score = sum_from (whole 0) (map contribution (signals_of p c));
  signals = signals_of p c;
}

-- A candidate with a higher score comes first.
abbrev pub scores_as_high : RankedCandidate → RankedCandidate → Bool
scores_as_high a b = leb_ratio b.score a.score

unfoldable pub ranking : BuyerProfile → List Property → List RankedCandidate
unfolding score_candidate
ranking p candidates = sort scores_as_high (map (score_candidate p) candidates)

unfoldable pub rank : BuyerProfile → ℕ → List Property → List RankedCandidate
unfolding ranking
rank p top_k candidates = take top_k (ranking p candidates)
