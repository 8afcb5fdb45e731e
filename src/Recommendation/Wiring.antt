-- ===== src/Recommendation/Wiring.antt =====
-- app/modules/recommendation/wiring.py. `decimal` is Python's text of a number.
pub mod Outcome
use leadto_sales_re.Base.{
  ℕ, String, Bool, true, false, Option, none, some, List, [], ◌∷◌, ◌++◌, if◌then◌else◌, str_append,
}
use leadto_sales_re.Event.{Stamp, event_at, response_ready}
use leadto_sales_re.Result.{Result, Error, ok, err, incomplete_profile, lead_not_found}
use leadto_sales_re.Database.{Database}
use leadto_sales_re.EventBus.{publish}
use leadto_sales_re.Session.{Action, pure, lift, commit, in_session, ◌>>=◌, ◌>>◌}
use leadto_sales_re.Conversation.State.{qualification, recommendation, is_state}
use leadto_sales_re.Conversation.Model.{Conversation, transition_to}
use leadto_sales_re.Conversation.Repository.{get_by_lead_id, save}
use leadto_sales_re.Recommendation.{NeighborhoodInsight, RecommendationItem, RecommendationResult}
use leadto_sales_re.Recommendation.Explanation.{join}
use leadto_sales_re.Recommendation.Service.{RecommendationService, search}

abbrev pub nothing_found : String
nothing_found =
    "No encontré propiedades que coincidan con tu búsqueda por ahora. En cuanto tengamos algo que se ajuste, te aviso."

abbrev neighborhood_lines : Option NeighborhoodInsight → List String
neighborhood_lines none = []
neighborhood_lines (some n) = elim n.nearby_places [
  | [] ↦ []
  | place ∷ places ↦ str_append "   Cerca de: " (join ", " (place ∷ places)) ∷ []
]

abbrev numbered : String → String → String
numbered number explanation = str_append "\n" (str_append number (str_append ". " explanation))

abbrev pub advance_reason : String
advance_reason = "BuyerProfile completeness threshold reached"

-- The transition, where the conversation is in Qualification.
abbrev pub advance : Stamp → Conversation → Action (Unit {0})
advance t c =
    if is_state c.state qualification
    then (let (r, c') = transition_to t recommendation advance_reason none none c in
        lift r >>= λ o. save c')
    else pure tt

-- The exceptions that end the handler without an error: the profile is incomplete, or the lead is
-- gone.
abbrev pub is_skipped : Error → Bool
is_skipped (incomplete_profile lead) = true
is_skipped (lead_not_found lead) = true
is_skipped _ = false

module _ (decimal : ℕ → String) where
  abbrev item_lines : List RecommendationItem → List String
  item_lines [] = []
  item_lines (i ∷ rest) =
      numbered (decimal i.rank) i.explanation ∷ neighborhood_lines i.neighborhood ++ item_lines rest

  abbrev message_of : List RecommendationItem → String
  message_of [] = nothing_found
  message_of (i ∷ rest) = join "\n" ("¡Encontré estas opciones para vos!" ∷ item_lines (i ∷ rest))

  -- `_format_recommendation_message`
  unfoldable pub format_recommendation_message : RecommendationResult → String
  format_recommendation_message result = message_of result.items

  abbrev pub deliver :
      (ℕ → Stamp) → ℕ → RecommendationResult → Option Conversation → Action (Unit {0})
  deliver clock organization_id result none = commit
  deliver clock organization_id result (some c) = do
    advance (clock 3) c
    publish (
        event_at (clock 4) organization_id
          (response_ready c.id c.chatwoot_conversation_id (format_recommendation_message result))
        ∷ [])
    commit

  -- What follows the search.
  abbrev pub after_search :
      (ℕ → Stamp) → ℕ → ℕ → Result (RecommendationResult × List ℕ) → Action (List ℕ)
  after_search clock organization_id lead_id (err e) = lift (if is_skipped e then ok [] else err e)
  after_search clock organization_id lead_id (ok (result, retries)) = do
    found ← get_by_lead_id organization_id lead_id
    deliver clock organization_id result found
    pure retries

  abbrev pub complete_profile : RecommendationService → (ℕ → Stamp) → ℕ → ℕ → Action (List ℕ)
  complete_profile service clock organization_id lead_id s =
      let (r, s') = search service organization_id lead_id s in
      after_search clock organization_id lead_id r s'

  -- `handle_profile_completed`, of the event's organization and lead: the retries that a search
  -- with a delivery leaves to the background, and the database.
  unfoldable pub handle_profile_completed :
      RecommendationService → (ℕ → Stamp) → ℕ → ℕ → Database → Result (List ℕ) × Database
  unfolding search get_by_lead_id format_recommendation_message transition_to save publish commit
  handle_profile_completed service clock organization_id lead_id =
      in_session (complete_profile service clock organization_id lead_id)
