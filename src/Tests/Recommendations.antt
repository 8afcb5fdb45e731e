-- ===== src/Tests/Recommendations.antt =====
-- Examples of the theorems on recommendations at concrete inputs.
use leadto_sales_re.Base.{
  ℕ, String, ◌≡◌, refl, ◌⊎◌, true, Option, none, some, List, [], ◌∷◌, ◌++◌, map, arith, ◌==◌,
  if◌then◌else◌, select, All,
}
use mathlib.Core.List.{Perm}
use leadto_sales_re.Base.Amount.{ℤ, pos}
use leadto_sales_re.Base.Sort.{IsSorted}
use leadto_sales_re.Result.{Result, ok, lead_not_found}
use leadto_sales_re.Database.{Database, empty, BuyerProfileRow, PropertyRow, PropertyEmbeddingRow}
use leadto_sales_re.Session.{Action, fresh}
use leadto_sales_re.Conversation.State.{qualification}
use leadto_sales_re.Conversation.Model.{OwnerType, Conversation}
use leadto_sales_re.Conversation.Repository as Conversations
use leadto_sales_re.Lead.Mirror.{Lead}
use leadto_sales_re.Lead.Guard.{check_before_decision}
use leadto_sales_re.Lead.Sync.Uncommitted.{check_before_decision-Uncommitted}
use leadto_sales_re.Lead.Profile.{
  BuyerProfile, money_range, can_advance_to_recommendation, captured_dimensions, completeness,
}
use leadto_sales_re.Lead.Repository as Leads
use leadto_sales_re.Conversation.Model.{channel_of_value, owner_of_value}
use leadto_sales_re.Conversation.State.{state_of_value}
use leadto_sales_re.Lead.ProfileStore as ProfileStore
use leadto_sales_re.Lead.ProfileStore.{profile_of, property_type_of_value}
use leadto_sales_re.Recommendation.{Property, RecommendationResult, matches_hard_filters}
use leadto_sales_re.Recommendation.Repository.{
  to_domain, list_for_organization, get_embedding, get_embedding_hash,
}
use leadto_sales_re.Recommendation.Ranking.{rank}
use leadto_sales_re.Recommendation.Retrieval.{
  filter_candidates, retrieve, scored, candidate_of, more_similar,
}
use leadto_sales_re.Recommendation.Retrieval.Candidates.{retrieve_best, has_embedding}
use leadto_sales_re.Recommendation.Enrichment.{Answer, retry_and_publish}
use leadto_sales_re.Recommendation.Enrichment.Retry.{
  AllMissed, FirstAnswer, with_event, retry_and_publish_outcome,
}
use leadto_sales_re.Recommendation.Ingestion.{EmbeddingModel, ingest_from_source}
use leadto_sales_re.Recommendation.Ingestion.Settled.{ingest_from_source_settled}
use leadto_sales_re.Recommendation.Service.{RecommendationService, search, result_of}
use leadto_sales_re.Recommendation.Service.Sound.{IsAnswer, search_sound}
use leadto_sales_re.Recommendation.Wiring.{handle_profile_completed}
use leadto_sales_re.Recommendation.Wiring.Outcome.{
  delivered, handle_profile_completed_skipped, handle_profile_completed_delivers,
}
use leadto_sales_re.Tests.{clock, chat, chat_db}
use leadto_sales_re.Tests.Leads.{client}
use leadto_sales_re.Tests.Rankings.{home, homes, buyer}

abbrev property_row : ℕ → ℕ → PropertyRow
property_row id price = record {
  id = id;
  organization_id = 7;
  external_id = "p";
  price = pos price;
  zone = "Palermo";
  property_type = "apartment";
  features = "balcony" ∷ [];
  description = "";
  updated_at = 1;
}

abbrev embedding : ℕ → PropertyEmbeddingRow
embedding id = record {
  property_id = id;
  vector = pos id ∷ [];
  model_version = "v";
  source_hash = "h";
  computed_at = 1;
}

abbrev buyer_row : BuyerProfileRow
buyer_row = record {
  id = 5;
  organization_id = 7;
  lead_id = 3;
  budget_min = some (pos 100);
  budget_max = some (pos 200);
  locations = "Palermo" ∷ [];
  property_type = none;
  timeline = none;
  must_haves = "balcony" ∷ [];
  updated_at = 1;
}

-- Three properties, one of them too expensive and one without an embedding.
abbrev shop : Database
shop = record (chat_db qualification OwnerType.ai) {
  buyer_profiles = buyer_row ∷ [];
  properties = property_row 1 120 ∷ property_row 2 900 ∷ property_row 4 150 ∷ [];
  property_embeddings = embedding 1 ∷ embedding 2 ∷ [];
}

abbrev quotient : ℤ → ℕ → ℕ → ℤ
quotient d a b = d

abbrev embed_query : BuyerProfile → List ℤ
embed_query p = pos 1 ∷ []

abbrev nearby : ℕ → Answer
nearby id = none

abbrev pub service : Option (ℕ → Action Lead) → ℕ → RecommendationService
service guard threshold = record {
  staleness_guard = guard;
  threshold = threshold;
  quotient = quotient;
  embed_query = embed_query;
  words = λ name. name;
  nearby = nearby;
  semantic_top_n = 10;
  top_k = 3;
}

abbrev offered : BuyerProfile
offered = record buyer { property_type = none }

retrieve_best_example :
    (map candidate_of (scored quotient embed_query (embed_query buyer) shop homes)
      ≡ select (has_embedding quotient embed_query buyer shop) homes)
    × ((best : List (ℤ × Property)) × (others : List (ℤ × Property)) × (retrieve quotient
            embed_query buyer 1 shop homes
          ≡ map candidate_of best)
        × Perm (best ++ others) (scored quotient embed_query (embed_query buyer) shop homes)
        × IsSorted more_similar best
        × All (λ x. All (λ y. more_similar x y ≡ true) others) best)
retrieve_best_example = retrieve_best quotient embed_query buyer shop 1 homes

-- The only result: the property that qualifies and has an embedding.
abbrev found : RecommendationResult
found =
    (result_of (service none 60) 3 (
      rank offered 3 (retrieve quotient embed_query offered 10 shop (home 1 120 "Palermo" ∷ [])))).0

search_sound_example :
    (p : BuyerProfile) × (profile_of 3 shop ≡ ok (some p))
    × ((can_advance_to_recommendation 60 p).can_advance ≡ true)
    × IsAnswer 7 p shop 3 found.items
unfolding search get_embedding filter_candidates list_for_organization ProfileStore.to_domain
    money_range captured_dimensions completeness can_advance_to_recommendation matches_hard_filters
    to_domain ProfileStore.get_by_lead_id property_type_of_value
search_sound_example = search_sound (service none 60) 7 3 (fresh shop) found (1 ∷ []) refl

abbrev pub decimal : ℕ → String
decimal n = "1"

-- The conversation of the lead, in Qualification.
abbrev linked : Conversation
linked = record (chat qualification OwnerType.ai) { lead_id = some 3 }

abbrev linked_shop : Database
linked_shop = record shop { conversations = Conversations.to_row linked ∷ [] }

handle_profile_completed_delivers_example :
    handle_profile_completed decimal (service none 60) clock 7 3 linked_shop ≡ (
      ok (1 ∷ []),
      delivered decimal
          (clock 4)
          7
          found
          (some linked)
          (search (service none 60) 7 3 (fresh linked_shop)).1.working,
    )
unfolding search get_embedding channel_of_value state_of_value owner_of_value filter_candidates
    list_for_organization ProfileStore.to_domain money_range captured_dimensions completeness
    can_advance_to_recommendation matches_hard_filters to_domain ProfileStore.get_by_lead_id
    property_type_of_value Conversations.get_by_lead_id Conversations.to_domain Conversations.to_row
handle_profile_completed_delivers_example =
    handle_profile_completed_delivers decimal clock 7 found (1 ∷ []) (service none 60) 3 linked_shop
      (some linked) refl refl

-- With the staleness guard as the program sets it up, for a lead that the mirror does not know.
abbrev guard : ℕ → Action Lead
guard = check_before_decision client clock 0

handle_profile_completed_skipped_example :
    handle_profile_completed decimal (service (some guard) 60) clock 7 99 shop ≡ (ok [], shop)
unfolding search check_before_decision Leads.get
handle_profile_completed_skipped_example =
    handle_profile_completed_skipped decimal (service (some guard) 60) clock 7 99 shop
      (lead_not_found 99) (check_before_decision-Uncommitted client clock 0) refl refl

abbrev fails_once : ℕ → Answer
fails_once attempt = if attempt == 1 then none else some ("Park" ∷ [])

retry_and_publish_outcome_example :
    (AllMissed fails_once 1 2 × (retry_and_publish (clock 0) 3 1 fails_once 2 empty ≡ empty))
    ⊎ ((places : List String) × FirstAnswer fails_once 1 2 places
        × (retry_and_publish (clock 0) 3 1 fails_once 2 empty
            ≡ with_event (clock 0) 3 1 places empty))
retry_and_publish_outcome_example = retry_and_publish_outcome (clock 0) 3 1 fails_once 2 empty

abbrev model : EmbeddingModel
model = record { model_version = "v"; embed = λ p. p.price ∷ [] }

abbrev zone_hash : Property → String
zone_hash p = p.zone

abbrev fetch : ℕ → Result (List Property)
fetch o = ok homes

ingest_from_source_settled_example :
    ((ingest_from_source zone_hash model 9 fetch 7
        (ingest_from_source zone_hash model 8 fetch 7 empty).1).0
      ≡ ok 0)
    × ((ingest_from_source zone_hash model 9 fetch 7
          (ingest_from_source zone_hash model 8 fetch 7 empty).1).1.property_embeddings
        ≡ (ingest_from_source zone_hash model 8 fetch 7 empty).1.property_embeddings)
ingest_from_source_settled_example =
    ingest_from_source_settled zone_hash model model 8 9 7 fetch homes empty (ground arith) refl

-- A catalog of three new properties: all of them get an embedding.
first_touches_all : (ingest_from_source zone_hash model 8 fetch 7 empty).0 ≡ ok 3
unfolding ingest_from_source get_embedding_hash
first_touches_all = refl
