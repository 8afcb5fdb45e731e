-- ===== src/Recommendation/Ingestion/Settled.antt =====
-- A second ingestion of a catalog that did not change computes no embedding.
use leadto_sales_re.Base.{
  ℕ, String, ◌≡◌, refl, sym, ap, ◌∙◌, subst, ◌≢◌, inl, inr, true, Option, none, some, List, [], ◌∷◌,
  arith, eq_iff, eq_refl, Bool-cases, Option-cases, All,
}
use leadto_sales_re.Base.Table.{
  get_row-append_new, get_row-append_ne, get_row-set_row_self, get_row-set_row_ne, UniqueKeys,
}
use leadto_sales_re.Result.{Result, ok}
use leadto_sales_re.Database.{Database}
use leadto_sales_re.Recommendation.{Property, PropertyEmbedding}
use leadto_sales_re.Recommendation.Repository.{
  upsert, embedding_key, embedding_in, embedding_row, write_embedding, get_embedding_hash,
  save_embedding,
}
use leadto_sales_re.Recommendation.Ingestion.{
  EmbeddingModel, is_hash, embedding_for, ingest_one, ingest_all, ingest_from_source,
}

hash-save_self :
    (e : PropertyEmbedding) (h : String) (db : Database)
    → get_embedding_hash e.property_id (save_embedding e h db) ≡ some h
unfolding get_embedding_hash save_embedding
hash-save_self e h db = elim (Option-cases (embedding_in e.property_id db)) [
  | inl n ↦
      rw
        (
          n,
          get_row-append_new embedding_key e.property_id db.property_embeddings (embedding_row e h)
              n refl,
        )
        refl
  | inr (row, q) ↦
      rw
        (
          q,
          get_row-set_row_self embedding_key e.property_id (write_embedding e h)
              db.property_embeddings refl q,
        )
        refl
]

hash-save_other :
    (id : ℕ) (e : PropertyEmbedding) (h : String) (db : Database)
    → id ≢ e.property_id
    → get_embedding_hash id (save_embedding e h db) ≡ get_embedding_hash id db
unfolding get_embedding_hash save_embedding
hash-save_other id e h db ne = elim (Option-cases (embedding_in e.property_id db)) [
  | inl n ↦
      rw
        (
          n,
          get_row-append_ne embedding_key id db.property_embeddings (embedding_row e h)
              (λ q. ne (sym q)),
        )
        refl
  | inr (row, q) ↦
      rw
        (
          q,
          get_row-set_row_ne embedding_key e.property_id id (write_embedding e h)
              db.property_embeddings (λ r. refl) ne,
        )
        refl
]

module _ (content_hash : Property → String) where
  -- The stored embedding was computed from the property's present content.
  abbrev pub Fresh : Database → Property → Type 0
  Fresh db p = get_embedding_hash p.id db ≡ some (content_hash p)

  is_hash_self : (o : Option String) (h : String) → is_hash o h ≡ true → o ≡ some h
  is_hash_self none h e = absurd (ground arith)
  is_hash_self (some g) h e = ap some ((eq_iff g h).0 e)

  module _ (embedder : EmbeddingModel) (now : ℕ) where
    ingest_one-Fresh :
        (p : Property) (n : ℕ) (db : Database)
        → Fresh (ingest_one content_hash embedder now p (n, db)).1 p
    unfolding ingest_one
    ingest_one-Fresh p n db =
        elim (Bool-cases (is_hash (get_embedding_hash p.id (upsert p db)) (content_hash p))) [
          | inl e ↦ rw e (is_hash_self (get_embedding_hash p.id (upsert p db)) (content_hash p) e)
          | inr e ↦ rw e (
              hash-save_self (embedding_for content_hash embedder now p) (content_hash p)
                (upsert p db))
        ]

    ingest_one_keeps :
        (p : Property) (n : ℕ) (db : Database) (id : ℕ)
        → id ≢ p.id
        → get_embedding_hash id (ingest_one content_hash embedder now p (n, db)).1
          ≡ get_embedding_hash id db
    unfolding ingest_one get_embedding_hash
    ingest_one_keeps p n db id ne =
        elim (Bool-cases (is_hash (get_embedding_hash p.id (upsert p db)) (content_hash p))) [
          | inl e ↦ rw e refl
          | inr e ↦ rw e (
              hash-save_other id (embedding_for content_hash embedder now p) (content_hash p)
                (upsert p db) ne)
        ]

    ingest_all_keeps :
        (ps : List Property) (state : ℕ × Database) (id : ℕ)
        → All (λ (q : Property). q.id ≢ id) ps
        → get_embedding_hash id (ingest_all content_hash embedder now ps state).1
          ≡ get_embedding_hash id state.1
    unfolding ingest_all
    ingest_all_keeps [] state id h = refl
    ingest_all_keeps (p ∷ ps) state id h =
        ingest_all_keeps ps (ingest_one content_hash embedder now p state) id h.1
        ∙ ingest_one_keeps p state.0 state.1 id (λ e. h.0 (sym e))

    ingest_all-Fresh :
        (ps : List Property) (state : ℕ × Database)
        → UniqueKeys (λ (p : Property). p.id) ps
        → All (Fresh (ingest_all content_hash embedder now ps state).1) ps
    unfolding ingest_all
    ingest_all-Fresh [] state u = tt
    ingest_all-Fresh (p ∷ ps) state u =
        let state' = ingest_one content_hash embedder now p state in
        (
          ingest_all_keeps ps state' p.id u.0 ∙ ingest_one-Fresh p state.0 state.1,
          ingest_all-Fresh ps state' u.1,
        )

    ingest_one_settled :
        (p : Property) (n : ℕ) (db : Database)
        → Fresh db p
        → ingest_one content_hash embedder now p (n, db) ≡ (n, upsert p db)
    unfolding ingest_one get_embedding_hash
    ingest_one_settled p n db h = rw (h, eq_refl (content_hash p)) refl

    ingest_all_settled :
        (ps : List Property) (n : ℕ) (db : Database)
        → All (Fresh db) ps
        → ((ingest_all content_hash embedder now ps (n, db)).0 ≡ n)
          × ((ingest_all content_hash embedder now ps (n, db)).1.property_embeddings
              ≡ db.property_embeddings)
    unfolding ingest_all get_embedding_hash
    ingest_all_settled [] n db h = (refl, refl)
    ingest_all_settled (p ∷ ps) n db h =
        let all = ingest_all content_hash embedder now ps in
        let settled : ℕ × Database → Type 0 =
          λ o. ((all o).0 ≡ n) × ((all o).1.property_embeddings ≡ db.property_embeddings) in
        subst settled (sym (ingest_one_settled p n db h.0))
          (ingest_all_settled ps n (upsert p db) h.1)

  -- For a catalog without repeated identifiers: when the source answers the same again, a second
  -- ingestion touches no property and leaves the embeddings as they are, whenever it runs and
  -- whichever model would compute them.
  pub ingest_from_source_settled :
      (embedder embedder' : EmbeddingModel) (now now' organization : ℕ)
      (fetch : ℕ → Result (List Property)) (ps : List Property) (db : Database)
      → UniqueKeys (λ (p : Property). p.id) ps
      → fetch organization ≡ ok ps
      → ((ingest_from_source content_hash embedder' now' fetch organization
            (ingest_from_source content_hash embedder now fetch organization db).1).0
          ≡ ok 0)
        × ((ingest_from_source content_hash embedder' now' fetch organization
              (ingest_from_source content_hash embedder now fetch organization
                db).1).1.property_embeddings
            ≡ (ingest_from_source content_hash embedder now fetch organization
                db).1.property_embeddings)
  unfolding ingest_from_source
  ingest_from_source_settled embedder embedder' now now' organization fetch ps db u e =
      let first = ingest_all content_hash embedder now ps (0, db) in
      let (none_touched, kept) =
        ingest_all_settled embedder' now' ps 0 first.1
          (ingest_all-Fresh embedder now ps (0, db) u) in
      rw e (ap ok none_touched, kept)
