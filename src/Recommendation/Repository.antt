-- ===== src/Recommendation/Repository.antt =====
-- `PropertyRepository` of app/modules/recommendation/infrastructure/repository.py.
use leadto_sales_re.Base.{ℕ, String, Bool, Option, none, some, List, [], ◌∷◌, ◌++◌, ◌==◌, select}
use leadto_sales_re.Base.Table.{get_row, set_row}
use leadto_sales_re.Result.{Result, value_error, or_raise, map_results}
use leadto_sales_re.Database.{Database, PropertyRow, PropertyEmbeddingRow}
use leadto_sales_re.Lead.Profile.{PropertyType}
use leadto_sales_re.Lead.ProfileStore.{property_type_value, property_type_of_value}
use leadto_sales_re.Lead.Repository.{map_ok}
use leadto_sales_re.Recommendation.{Property, PropertyEmbedding}

abbrev pub property_key : PropertyRow → ℕ
property_key r = r.id

abbrev pub embedding_key : PropertyEmbeddingRow → ℕ
embedding_key r = r.property_id

unfoldable pub to_row : Property → PropertyRow
to_row p = record {
  id = p.id;
  organization_id = p.organization_id;
  external_id = p.external_id;
  price = p.price;
  zone = p.zone;
  property_type = property_type_value p.property_type;
  features = p.features;
  description = p.description;
  updated_at = p.updated_at;
}

abbrev with_type : PropertyRow → PropertyType → Property
with_type row kind = record {
  id = row.id;
  organization_id = row.organization_id;
  external_id = row.external_id;
  price = row.price;
  zone = row.zone;
  property_type = kind;
  features = row.features;
  description = row.description;
  updated_at = row.updated_at;
}

-- `_to_domain`, where `PropertyType(value)` may raise.
unfoldable pub to_domain : PropertyRow → Result Property
to_domain row =
    map_ok (with_type row)
      (or_raise (value_error "PropertyType") (property_type_of_value row.property_type))

unfoldable pub to_embedding_domain : PropertyEmbeddingRow → PropertyEmbedding
to_embedding_domain row = record {
  property_id = row.property_id;
  vector = row.vector;
  model_version = row.model_version;
  computed_at = row.computed_at;
}

-- The writes of `upsert` on a row that is there: the organization stays.
abbrev write : Property → PropertyRow → PropertyRow
write p row = record row {
  external_id = p.external_id;
  price = p.price;
  zone = p.zone;
  property_type = property_type_value p.property_type;
  features = p.features;
  description = p.description;
  updated_at = p.updated_at;
}

abbrev upsert_at : Property → List PropertyRow → Option PropertyRow → List PropertyRow
upsert_at p rows none = rows ++ to_row p ∷ []
upsert_at p rows (some row) = set_row property_key p.id (write p) rows

unfoldable pub upsert_rows : Property → List PropertyRow → List PropertyRow
unfolding to_row
upsert_rows p rows = upsert_at p rows (get_row property_key p.id rows)

abbrev pub upsert : Property → Database → Database
upsert p db = record db { properties = upsert_rows p db.properties }

abbrev pub embedding_in : ℕ → Database → Option PropertyEmbeddingRow
embedding_in id db = get_row embedding_key id db.property_embeddings

abbrev embedding_of : Option PropertyEmbeddingRow → Option PropertyEmbedding
embedding_of none = none
embedding_of (some row) = some (to_embedding_domain row)

unfoldable pub get_embedding : ℕ → Database → Option PropertyEmbedding
unfolding to_embedding_domain
get_embedding id db = embedding_of (embedding_in id db)

abbrev hash_of : Option PropertyEmbeddingRow → Option String
hash_of none = none
hash_of (some row) = some row.source_hash

unfoldable pub get_embedding_hash : ℕ → Database → Option String
get_embedding_hash id db = hash_of (embedding_in id db)

abbrev pub embedding_row : PropertyEmbedding → String → PropertyEmbeddingRow
embedding_row e hash = record {
  property_id = e.property_id;
  vector = e.vector;
  model_version = e.model_version;
  source_hash = hash;
  computed_at = e.computed_at;
}

-- The writes of `save_embedding` on a row that is there.
abbrev pub write_embedding :
    PropertyEmbedding → String → PropertyEmbeddingRow → PropertyEmbeddingRow
write_embedding e hash row = record row {
  vector = e.vector;
  model_version = e.model_version;
  source_hash = hash;
  computed_at = e.computed_at;
}

abbrev save_at :
    PropertyEmbedding
    → String
    → List PropertyEmbeddingRow
    → Option PropertyEmbeddingRow
    → List PropertyEmbeddingRow
save_at e hash rows none = rows ++ embedding_row e hash ∷ []
save_at e hash rows (some row) = set_row embedding_key e.property_id (write_embedding e hash) rows

unfoldable pub save_embedding : PropertyEmbedding → String → Database → Database
save_embedding e hash db = record db {
  property_embeddings = save_at e hash db.property_embeddings (embedding_in e.property_id db);
}

abbrev pub of_organization : ℕ → PropertyRow → Bool
of_organization organization r = r.organization_id == organization

unfoldable pub list_for_organization : ℕ → Database → Result (List Property)
unfolding to_domain
list_for_organization organization db =
    map_results to_domain (select (of_organization organization) db.properties)
