-- ===== src/Recommendation/Retrieval.antt =====
-- app/modules/recommendation/application/retrieval.py. Vectors are in a fixed unit. The quotient of
-- the cosine, which is a float, and the embedding of the query are parameters.
pub mod Candidates
pub mod Filter
use leadto_sales_re.Base.{
  ℕ, Bool, ◌||◌, not, Option, none, some, List, [], ◌∷◌, map, ◌==◌, if◌then◌else◌, length, take,
  select,
}
use leadto_sales_re.Base.Amount.{ℤ, pos, leb_ℤ, add_ℤ, multiply_ℤ, pos_part}
use leadto_sales_re.Base.Sort.{sort}
use leadto_sales_re.Result.{Result}
use leadto_sales_re.Database.{Database}
use leadto_sales_re.Lead.Profile.{BuyerProfile, is_empty_list}
use leadto_sales_re.Lead.Repository.{map_ok}
use leadto_sales_re.Recommendation.{Property, PropertyEmbedding, matches_hard_filters}
use leadto_sales_re.Recommendation.Repository.{list_for_organization, get_embedding}

abbrev pub dot : List ℤ → List ℤ → ℤ
dot [] ys = pos 0
dot (x ∷ xs) [] = pos 0
dot (x ∷ xs) (y ∷ ys) = add_ℤ (multiply_ℤ x y) (dot xs ys)

-- A sum of squares.
abbrev pub squares : List ℤ → ℕ
squares xs = pos_part (dot xs xs)

-- `_cosine_similarity`: `quotient d a b` stands for `d / (math.sqrt(a) * math.sqrt(b))`.
unfoldable pub cosine_similarity : (ℤ → ℕ → ℕ → ℤ) → List ℤ → List ℤ → ℤ
cosine_similarity quotient a b =
    if is_empty_list a || is_empty_list b || not (length a == length b)
    then pos 0
    else if (squares a == 0) || (squares b == 0)
    then pos 0
    else quotient (dot a b) (squares a) (squares b)

-- The comprehension of `StructuredFilterService.filter_candidates`.
abbrev pub qualifies : BuyerProfile → Property → Bool
qualifies p c = matches_hard_filters c p.budget p.locations p.property_type

unfoldable pub filter_candidates : ℕ → BuyerProfile → Database → Result (List Property)
unfolding list_for_organization matches_hard_filters
filter_candidates organization p db =
    map_ok (select (qualifies p)) (list_for_organization organization db)

abbrev add_scored : Property → Option ℤ → List (ℤ × Property) → List (ℤ × Property)
add_scored c none rest = rest
add_scored c (some similarity) rest = (similarity, c) ∷ rest

abbrev pub more_similar : ℤ × Property → ℤ × Property → Bool
more_similar a b = leb_ℤ b.0 a.0

abbrev pub candidate_of : ℤ × Property → Property
candidate_of pair = pair.1

module _ (quotient : ℤ → ℕ → ℕ → ℤ) (embed_query : BuyerProfile → List ℤ) where
  abbrev similarity_of : List ℤ → Option PropertyEmbedding → Option ℤ
  similarity_of query none = none
  similarity_of query (some e) = some (cosine_similarity quotient query e.vector)

  -- The loop: a candidate without an embedding is left out.
  unfoldable pub scored : List ℤ → Database → List Property → List (ℤ × Property)
  unfolding cosine_similarity
  scored query db [] = []
  scored query db (c ∷ cs) =
      add_scored c (similarity_of query (get_embedding c.id db)) (scored query db cs)

  -- `SemanticRetrievalService.retrieve`
  unfoldable pub retrieve : BuyerProfile → ℕ → Database → List Property → List Property
  unfolding scored
  retrieve p top_n db candidates =
      if is_empty_list candidates
      then []
      else map candidate_of (take top_n (sort more_similar (scored (embed_query p) db candidates)))
