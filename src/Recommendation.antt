-- ===== src/Recommendation.antt =====
-- app/modules/recommendation/domain/models.py: the inventory and what a recommendation is made of.
-- A price is in whole cents, a score an exact fraction: they stand for the source's floats.
pub mod Ranking
pub mod Repository
pub mod Ingestion
pub mod Retrieval
pub mod Explanation
pub mod Enrichment
pub mod Service
pub mod Wiring
use leadto_sales_re.Base.{
  ℕ, String, Bool, true, false, ◌&&◌, not, Option, none, some, List, str_eq, ◌==◌, if◌then◌else◌,
  take, any,
}
use leadto_sales_re.Base.Amount.{ℤ, leb_ℤ}
use leadto_sales_re.Base.Ratio.{Ratio, multiply, leb_ratio}
use leadto_sales_re.Base.Sort.{sort}
use leadto_sales_re.Lead.Profile.{MoneyRange, PropertyType, is_empty_list}

abbrev ordinal : PropertyType → ℕ
ordinal PropertyType.apartment = 0
ordinal PropertyType.house = 1
ordinal PropertyType.land = 2
ordinal PropertyType.commercial = 3
ordinal PropertyType.other = 4

-- `a is b` on two members of the enumeration
abbrev pub is_property_type : PropertyType → PropertyType → Bool
is_property_type a b = ordinal a == ordinal b

-- `x in xs` on texts
abbrev pub contains : String → List String → Bool
contains x = any (str_eq x)

pub record Property : Type 0 where
  pub id : ℕ
  pub organization_id : ℕ
  pub external_id : String
  pub price : ℤ
  pub zone : String
  pub property_type : PropertyType
  pub features : List String
  pub description : String
  pub updated_at : ℕ

-- `budget.minimum <= self.price <= budget.maximum`
abbrev pub within : MoneyRange → ℤ → Bool
within budget price = leb_ℤ budget.minimum price && leb_ℤ price budget.maximum

abbrev pub budget_allows : Option MoneyRange → ℤ → Bool
budget_allows none price = true
budget_allows (some budget) price = within budget price

abbrev pub type_allows : Option PropertyType → PropertyType → Bool
type_allows none t = true
type_allows (some wanted) t = is_property_type t wanted

unfoldable pub matches_hard_filters :
    Property → Option MoneyRange → List String → Option PropertyType → Bool
matches_hard_filters p budget zones property_type =
    if not (budget_allows budget p.price)
    then false
    else if not (is_empty_list zones) && not (contains p.zone zones)
    then false
    else if not (type_allows property_type p.property_type)
    then false
    else true

-- `PropertyEmbedding`, with the components of the vector in a fixed unit.
pub record PropertyEmbedding : Type 0 where
  pub property_id : ℕ
  pub vector : List ℤ
  pub model_version : String
  pub computed_at : ℕ

pub record RankingSignal : Type 0 where
  pub name : String
  pub weight : Ratio
  pub value : Ratio

unfoldable pub contribution : RankingSignal → Ratio
unfolding multiply
contribution s = multiply s.weight s.value

pub record RankedCandidate : Type 0 where
  pub property_id : ℕ
  pub score : Ratio
  pub signals : List RankingSignal

-- The order of `top_signals`. A contribution is not negative, so it is its own absolute value.
abbrev pub contributes_more : RankingSignal → RankingSignal → Bool
contributes_more s t = leb_ratio (contribution t) (contribution s)

unfoldable pub top_signals : ℕ → RankedCandidate → List RankingSignal
unfolding contribution
top_signals count c = take count (sort contributes_more c.signals)

pub record NeighborhoodInsight : Type 0 where
  pub property_id : ℕ
  pub nearby_places : List String
  pub partial : Bool

pub record RecommendationItem : Type 0 where
  pub property_id : ℕ
  pub rank : ℕ
  pub score : Ratio
  pub explanation : String
  pub neighborhood : Option NeighborhoodInsight

pub record RecommendationResult : Type 0 where
  pub lead_id : ℕ
  pub items : List RecommendationItem
