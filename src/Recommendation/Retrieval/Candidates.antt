-- ===== src/Recommendation/Retrieval/Candidates.antt =====
-- Which candidates the retrieval keeps.
use leadto_sales_re.Base.{
  ℕ, zero, suc, ◌≡◌, refl, ap, inl, inr, Bool, true, List, [], ◌∷◌, ◌++◌, map, arith, Option-cases,
  is_some, take, select, All, All-map,
}
use mathlib.Core.List.{Perm}
use leadto_sales_re.Base.Amount.{ℤ}
use leadto_sales_re.Base.Sort.{TotalPreorder, IsSorted, sort, All-sort, All-take, take-sort_best}
use leadto_sales_re.Database.{Database}
use leadto_sales_re.Lead.Profile.{BuyerProfile}
use leadto_sales_re.Recommendation.{Property}
use leadto_sales_re.Recommendation.Repository.{get_embedding}
use leadto_sales_re.Recommendation.Retrieval.{scored, more_similar, candidate_of, retrieve}

leb_ℤ_laws : TotalPreorder more_similar
leb_ℤ_laws = record { total = λ x y h. ground arith; trans = λ x y z h k. ground arith }

module _ (quotient : ℤ → ℕ → ℕ → ℤ) (embed_query : BuyerProfile → List ℤ) (p : BuyerProfile)
    (db : Database) where
  abbrev pub has_embedding : Property → Bool
  has_embedding c = is_some (get_embedding c.id db)

  candidates_of-scored :
      (cs : List Property)
      → map candidate_of (scored quotient embed_query (embed_query p) db cs)
        ≡ select has_embedding cs
  unfolding scored
  candidates_of-scored [] = refl
  candidates_of-scored (c ∷ cs) = elim (Option-cases (get_embedding c.id db)) [
    | inl e ↦ rw e (candidates_of-scored cs)
    | inr (v, e) ↦ rw e (ap (λ xs. c ∷ xs) (candidates_of-scored cs))
  ]

  module _ (P : Property → Type 0) where
    All-scored :
        (query : List ℤ) (cs : List Property)
        → All P cs
        → All (λ pair. P (candidate_of pair)) (scored quotient embed_query query db cs)
    unfolding scored
    All-scored query [] h = tt
    All-scored query (c ∷ cs) h = elim (Option-cases (get_embedding c.id db)) [
      | inl e ↦ rw e (All-scored query cs h.1)
      | inr (v, e) ↦ rw e (h.0, All-scored query cs h.1)
    ]

    -- For candidates of which each has the property, so does each that is retrieved.
    pub All-retrieve :
        (top_n : ℕ) (cs : List Property)
        → All P cs
        → All P (retrieve quotient embed_query p top_n db cs)
    unfolding retrieve
    All-retrieve top_n [] h = tt
    All-retrieve top_n (c ∷ cs) h =
        let of = λ (pair : ℤ × Property). P (candidate_of pair) in
        let found = scored quotient embed_query (embed_query p) db (c ∷ cs) in
        All-map candidate_of P (take top_n (sort more_similar found)) (
          All-take more_similar of top_n (sort more_similar found)
            (All-sort more_similar of found (All-scored (embed_query p) (c ∷ cs) h)))

  retrieve-scored :
      (top_n : ℕ) (cs : List Property)
      → retrieve quotient embed_query p top_n db cs
        ≡ map candidate_of
            (take top_n (sort more_similar (scored quotient embed_query (embed_query p) db cs)))
  unfolding retrieve scored
  retrieve-scored zero [] = refl
  retrieve-scored (suc n) [] = refl
  retrieve-scored top_n (c ∷ cs) = refl

  -- The candidates that the loop scores are those with an embedding. What is retrieved are the best
  -- of these: the most similar come first, and none that is left out is more similar to the query
  -- than one that is retrieved.
  pub retrieve_best :
      (top_n : ℕ) (cs : List Property)
      → (map candidate_of (scored quotient embed_query (embed_query p) db cs)
          ≡ select has_embedding cs)
        × ((best : List (ℤ × Property)) × (others : List (ℤ × Property)) × (retrieve quotient
                embed_query p top_n db cs
              ≡ map candidate_of best)
            × Perm (best ++ others) (scored quotient embed_query (embed_query p) db cs)
            × IsSorted more_similar best
            × All (λ x. All (λ y. more_similar x y ≡ true) others) best)
  retrieve_best top_n cs =
      let all = scored quotient embed_query (embed_query p) db cs in
      let (sorted, (others, perm, before)) = take-sort_best more_similar leb_ℤ_laws top_n all in
      (
        candidates_of-scored cs,
        (
          take top_n (sort more_similar all),
          others,
          retrieve-scored top_n cs,
          perm,
          sorted,
          before,
        ),
      )
