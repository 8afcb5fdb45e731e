-- ===== src/Recommendation/Ranking/Order.antt =====
-- What a ranking keeps, in which order, and how it breaks ties.
use leadto_sales_re.Base.{
  ℕ, suc, min, ◌≡◌, refl, ap, Bool, true, ◌&&◌, List, [], ◌∷◌, ◌++◌, map, arith, length, select,
  All,
}
use mathlib.Core.List.{Perm}
use leadto_sales_re.Base.Ratio.{Ratio, leb_ratio, trans, descending}
use leadto_sales_re.Base.Sort.{
  IsSorted, sort, select-sort, take-sort_best, length-take, length-sort,
}
use leadto_sales_re.Lead.Profile.{BuyerProfile}
use leadto_sales_re.Recommendation.{Property, RankedCandidate}
use leadto_sales_re.Recommendation.Ranking.{score_candidate, scores_as_high, ranking, rank}

-- Whatever the profile and the candidates, the ranking is in the order of the scores, the highest
-- first; together with some other candidates it is a rearrangement of all the scored candidates,
-- and each that is returned scores at least as high as each of the others.
pub rank_best :
    (p : BuyerProfile) (top_k : ℕ) (candidates : List Property)
    → IsSorted scores_as_high (rank p top_k candidates)
      × ((others : List RankedCandidate) × Perm
            (rank p top_k candidates ++ others)
            (map (score_candidate p) candidates)
          × All (λ x. All (λ y. scores_as_high x y ≡ true) others) (rank p top_k candidates))
unfolding rank ranking
rank_best p top_k candidates =
    take-sort_best scores_as_high (descending (λ (c : RankedCandidate). c.score)) top_k
      (map (score_candidate p) candidates)

pub length-map : {A B : Type 0} (f : A → B) (xs : List A) → length (map f xs) ≡ length xs
length-map f [] = refl
length-map f (x ∷ xs) = ap suc (length-map f xs)

-- It has as many candidates as asked for, or all of them where there are fewer.
pub length-rank :
    (p : BuyerProfile) (top_k : ℕ) (candidates : List Property)
    → length (rank p top_k candidates) ≡ min top_k (length candidates)
unfolding rank ranking
length-rank p top_k candidates =
    rw
      (
        length-take top_k (sort scores_as_high (map (score_candidate p) candidates)),
        length-sort scores_as_high (map (score_candidate p) candidates),
        length-map (score_candidate p) candidates,
      )
      refl

abbrev pub has_score : Ratio → RankedCandidate → Bool
has_score r c = leb_ratio c.score r && leb_ratio r c.score

alike :
    (r : Ratio) (x y : RankedCandidate)
    → has_score r x ≡ true
    → has_score r y ≡ true
    → scores_as_high x y ≡ true
alike r x y h k = trans y.score r x.score (ground arith) (ground arith)

-- Candidates of the same score stand in the ranking in the order of the input.
pub ranking_stable :
    (p : BuyerProfile) (candidates : List Property) (r : Ratio)
    → select (has_score r) (ranking p candidates)
      ≡ select (has_score r) (map (score_candidate p) candidates)
unfolding ranking
ranking_stable p candidates r =
    select-sort scores_as_high (has_score r) (alike r) (map (score_candidate p) candidates)
