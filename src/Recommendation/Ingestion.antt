-- ===== src/Recommendation/Ingestion.antt =====
-- app/modules/recommendation/application/property_ingestion.py. The hash of a property's content and
-- its embedding are parameters, as is what the inventory source returns.
pub mod Settled
use leadto_sales_re.Base.{
  ℕ, ◌+◌, String, Bool, false, Option, none, some, List, [], ◌∷◌, str_eq, if◌then◌else◌,
}
use leadto_sales_re.Base.Amount.{ℤ}
use leadto_sales_re.Result.{Result, ok, err}
use leadto_sales_re.Database.{Database}
use leadto_sales_re.Recommendation.{Property, PropertyEmbedding}
use leadto_sales_re.Recommendation.Repository.{upsert, get_embedding_hash, save_embedding}

-- `EmbeddingModel`
pub record EmbeddingModel : Type 0 where
  pub model_version : String
  pub embed : Property → List ℤ

abbrev pub is_hash : Option String → String → Bool
is_hash none new_hash = false
is_hash (some stored) new_hash = str_eq stored new_hash

module _ (content_hash : Property → String) (embedder : EmbeddingModel) (now : ℕ) where
  abbrev pub embedding_for : Property → PropertyEmbedding
  embedding_for p = record {
    property_id = p.id;
    vector = embedder.embed p;
    model_version = embedder.model_version;
    computed_at = now;
  }

  -- One turn of the loop, on the database and the number of properties touched so far.
  unfoldable pub ingest_one : Property → ℕ × Database → ℕ × Database
  unfolding get_embedding_hash save_embedding
  ingest_one p (touched, db) =
      let db' = upsert p db in
      let new_hash = content_hash p in
      if is_hash (get_embedding_hash p.id db') new_hash
      then (touched, db')
      else (touched + 1, save_embedding (embedding_for p) new_hash db')

  unfoldable pub ingest_all : List Property → ℕ × Database → ℕ × Database
  unfolding ingest_one
  ingest_all [] state = state
  ingest_all (p ∷ ps) state = ingest_all ps (ingest_one p state)

  abbrev ingested : Result (List Property) → Database → Result ℕ × Database
  ingested (err e) db = (err e, db)
  ingested (ok ps) db = let (touched, db') = ingest_all ps (0, db) in (ok touched, db')

  -- `ingest_from_source`
  unfoldable pub ingest_from_source :
      (ℕ → Result (List Property)) → ℕ → Database → Result ℕ × Database
  unfolding ingest_all
  ingest_from_source fetch organization_id db = ingested (fetch organization_id) db
