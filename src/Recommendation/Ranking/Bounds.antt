-- ===== src/Recommendation/Ranking/Bounds.antt =====
-- The bounds of the signals and of the score.
use leadto_sales_re.Base.{
  ℕ, ◌≤◌, String, ◌≡◌, ◌≢◌, ◌↔◌, ◌⊎◌, Bool, true, false, Option, none, some, List, [], ◌∷◌, arith,
  length, select,
}
use leadto_sales_re.Base.Amount.{leb_ℤ, difference}
use leadto_sales_re.Base.Ratio.{
  Ratio, whole, denominator, AtMostTenths, AtMostTenths-add, AtMostTenths-multiply,
}
use leadto_sales_re.Lead.Profile.{MoneyRange, BuyerProfile}
use leadto_sales_re.Recommendation.{Property, contribution, contains, within}
use leadto_sales_re.Recommendation.Ranking.{
  one_if, fit, budget_fit, zone_match, must_have_coverage, type_match, signals_of, score_candidate,
}

length-select : {A : Type 0} (p : A → Bool) (xs : List A) → length (select p xs) ≤ length xs
length-select p [] = omega arith
length-select p (x ∷ xs) = ground (arith, length-select p xs)

abbrev AtMostOne : Ratio → Type 0
AtMostOne r = r.numerator ≤ denominator r

one_if_bound : (b : Bool) → AtMostOne (one_if b)
one_if_bound true = omega arith
one_if_bound false = omega arith

fit_bound : (u v : ℕ) → AtMostOne (fit u v)
fit_bound u v = ground arith

budget_fit_bound : (budget : Option MoneyRange) (c : Property) → AtMostOne (budget_fit budget c)
unfolding budget_fit
budget_fit_bound none c = omega arith
budget_fit_bound (some b) c =
    ground (arith, fit_bound (difference c.price b.minimum) (difference b.maximum c.price))

must_have_bound : (xs : List String) (c : Property) → AtMostOne (must_have_coverage xs c)
unfolding must_have_coverage
must_have_bound [] c = omega arith
must_have_bound (x ∷ xs) c = length-select (λ f. contains f c.features) (x ∷ xs)

zone_match_bound : (xs : List String) (c : Property) → AtMostOne (zone_match xs c)
unfolding zone_match
zone_match_bound xs c = one_if_bound (contains c.zone xs)

type_match_bound : (p : BuyerProfile) (c : Property) → AtMostOne (type_match p.property_type c)
unfolding type_match
type_match_bound p c = ground arith

-- A score is at most one, whatever the profile and the property.
pub score_candidate_at_most_one :
    (p : BuyerProfile) (c : Property) → AtMostTenths 10 (score_candidate p c).score
unfolding score_candidate signals_of contribution
score_candidate_at_most_one p c =
    AtMostTenths-add 9 1 _ _
      (AtMostTenths-add 7 2 _ _
        (AtMostTenths-add 4 3 _ _
          (AtMostTenths-add 0 4 (whole 0) _ (omega arith)
            (AtMostTenths-multiply 4 _ (budget_fit_bound p.budget c)))
          (AtMostTenths-multiply 3 _ (zone_match_bound p.locations c)))
        (AtMostTenths-multiply 2 _ (must_have_bound p.must_haves c)))
      (AtMostTenths-multiply 1 _ (type_match_bound p c))

-- The signal of the budget is full exactly where the price is as far above the minimum as below
-- the maximum, for a price within the range.
pub budget_fit_full_iff :
    (b : MoneyRange) (c : Property)
    → within b c.price ≡ true
    → ((budget_fit (some b) c).numerator ≡ denominator (budget_fit (some b) c))
      ↔ (difference c.price b.minimum ≡ difference b.maximum c.price)
unfolding budget_fit
budget_fit_full_iff b c h = ground arith

-- It is nothing exactly where the price is outside the range, or at an edge of a range whose edges
-- differ.
pub budget_fit_zero_iff :
    (b : MoneyRange) (c : Property)
    → leb_ℤ b.minimum b.maximum ≡ true
    → ((budget_fit (some b) c).numerator ≡ 0) ↔ (
        (within b c.price ≡ false)
        ⊎ ((difference b.maximum b.minimum ≢ 0)
            × ((difference c.price b.minimum ≡ 0) ⊎ (difference b.maximum c.price ≡ 0))))
unfolding budget_fit
budget_fit_zero_iff b c h = ground arith
