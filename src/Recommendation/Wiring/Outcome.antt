-- ===== src/Recommendation/Wiring/Outcome.antt =====
-- What the handler of a completed profile leaves.
use leadto_sales_re.Base.{
  ℕ, String, ◌≡◌, refl, ap, inl, inr, true, Option, none, some, List, [], ◌∷◌, ◌++◌, arith,
  if◌then◌else◌, Bool-cases, select,
}
use leadto_sales_re.Event.{Stamp, event_at, response_ready}
use leadto_sales_re.Result.{Result, Error, ok, err}
use leadto_sales_re.Database.{Database, ConversationRow}
use leadto_sales_re.EventBus.{publish, outbox_row}
use leadto_sales_re.Session.{
  Action, Session, fresh, pure, lift, continue, commit, scalar_one_or_none,
}
use leadto_sales_re.Session.Uncommitted.{
  Uncommitted, bind-Uncommitted, then-Uncommitted, lift-Uncommitted,
}
use leadto_sales_re.Lead.Mirror.{Lead}
use leadto_sales_re.Lead.ProfileStore as ProfileStore
use leadto_sales_re.Conversation.State.{
  ConversationState, allowed_transitions, qualification, recommendation, is_state, allows,
}
use leadto_sales_re.Conversation.Model.{Conversation, transition_to}
use leadto_sales_re.Conversation.Repository.{
  get_by_lead_id, save, save_rows, has_lead, to_domain_option,
}
use leadto_sales_re.Recommendation.{RecommendationResult}
use leadto_sales_re.Lead.Profile.{BuyerProfile}
use leadto_sales_re.Recommendation.Retrieval.{filter_candidates}
use leadto_sales_re.Recommendation.Service.{
  RecommendationService, run_guard, gated, recommend, search,
}
use leadto_sales_re.Recommendation.Wiring.{
  format_recommendation_message, advance, deliver, is_skipped, after_search,
  handle_profile_completed,
}

abbrev pub GuardUncommitted : Option (ℕ → Action Lead) → Type 0
GuardUncommitted none = Unit
GuardUncommitted (some guard) = (lead_id : ℕ) → Uncommitted (guard lead_id)

run_guard-Uncommitted :
    (guard : Option (ℕ → Action Lead)) (lead_id : ℕ)
    → GuardUncommitted guard
    → Uncommitted (run_guard guard lead_id)
run_guard-Uncommitted none lead_id h = λ s. refl
run_guard-Uncommitted (some guard) lead_id h =
    bind-Uncommitted (guard lead_id) (λ l. pure tt) (h lead_id) (λ l s. refl)

search-Uncommitted :
    (service : RecommendationService) (organization_id lead_id : ℕ)
    → GuardUncommitted service.staleness_guard
    → Uncommitted (search service organization_id lead_id)
unfolding search ProfileStore.get_by_lead_id
search-Uncommitted service organization_id lead_id h =
    then-Uncommitted (run_guard service.staleness_guard lead_id) _
      (run_guard-Uncommitted service.staleness_guard lead_id h)
      (bind-Uncommitted (ProfileStore.get_by_lead_id lead_id) _ (λ s. refl)
        (λ found.
          bind-Uncommitted (lift (gated service.threshold lead_id found)) _
            (lift-Uncommitted (gated service.threshold lead_id found))
            (λ p. recommend-Uncommitted p)))
  where
    recommend-Uncommitted :
        (p : BuyerProfile) → Uncommitted (recommend service organization_id lead_id p)
    recommend-Uncommitted p =
        bind-Uncommitted (λ s. (filter_candidates organization_id p s.working, s)) _ (λ s. refl)
          (λ cs s. refl)

module _ (decimal : ℕ → String) (service : RecommendationService) (clock : ℕ → Stamp)
    (organization_id lead_id : ℕ) (db : Database) where
  -- A guard that commits nothing, and a search that ends because the profile is incomplete or the
  -- lead is gone: the event counts as handled, and the database stays as it is.
  pub handle_profile_completed_skipped :
      (e : Error)
      → GuardUncommitted service.staleness_guard
      → (search service organization_id lead_id (fresh db)).0 ≡ err e
      → is_skipped e ≡ true
      → handle_profile_completed decimal service clock organization_id lead_id db ≡ (ok [], db)
  unfolding handle_profile_completed
  handle_profile_completed_skipped e g h k =
      let kept = search-Uncommitted service organization_id lead_id g (fresh db) in
      rw (h, k) (ap (λ d. (ok [], d)) kept)

reads : (organization lead : ℕ) (s : Session) → (get_by_lead_id organization lead s).1 ≡ s
unfolding get_by_lead_id
reads organization lead s =
    row_read (scalar_one_or_none (select (has_lead organization lead) s.working.conversations))
  where
    row_read :
        (r : Result (Option ConversationRow))
        → (continue r (λ row. lift (to_domain_option row)) s).1 ≡ s
    row_read (err e) = refl
    row_read (ok row) = refl

-- The conversation's rows after the handler: a conversation in Qualification advances to
-- Recommendation, any other stays as it is.
abbrev pub advanced : Conversation → List ConversationRow → List ConversationRow
advanced c rows =
    if is_state c.state qualification
    then save_rows (record c { state = recommendation }) rows
    else rows

abbrev pub delivered :
    (ℕ → String) → Stamp → ℕ → RecommendationResult → Option Conversation → Database → Database
delivered decimal t organization_id result none db = db
delivered decimal t organization_id result (some c) db = record db {
  conversations = advanced c db.conversations;
  outbox_events =
      db.outbox_events
      ++ outbox_row (
          event_at t organization_id (
            response_ready c.id c.chatwoot_conversation_id
              (format_recommendation_message decimal result)))
        ∷ [];
}

may_advance :
    (st : ConversationState) → is_state st qualification ≡ true → allows st recommendation ≡ true
unfolding allows allowed_transitions
may_advance st h = ground arith

advance_lem :
    (t : Stamp) (c : Conversation) (s : Session)
    → advance t c s ≡ (
      ok tt,
      record s {
        working = record s.working { conversations = advanced c s.working.conversations };
      },
    )
unfolding save transition_to
advance_lem t c s = elim (Bool-cases (is_state c.state qualification)) [
  | inl e ↦ rw e (rw (may_advance c.state e) refl)
  | inr e ↦ rw e refl
]

module _ (decimal : ℕ → String) (clock : ℕ → Stamp) (organization_id : ℕ)
    (result : RecommendationResult) (retries : List ℕ) where
  deliver_lem :
      (found : Option Conversation) (s : Session)
      → let after = delivered decimal (clock 4) organization_id result found s.working in
        deliver decimal clock organization_id result found s
        ≡ (ok tt, record { working = after; committed = after })
  unfolding publish commit
  deliver_lem none s = refl
  deliver_lem (some c) s = rw (advance_lem (clock 3) c s) refl

  after_search_lem :
      (found : Option Conversation) (lead_id : ℕ) (s : Session)
      → (get_by_lead_id organization_id lead_id s).0 ≡ ok found
      → let after = delivered decimal (clock 4) organization_id result found s.working in
        after_search decimal clock organization_id lead_id (ok (result, retries)) s
        ≡ (ok retries, record { working = after; committed = after })
  after_search_lem found lead_id s h =
      let read : get_by_lead_id organization_id lead_id s ≡ (ok found, s) =
        λ i. (h i, reads organization_id lead_id s i) in
      rw read (rw (deliver_lem found s) refl)

  -- A search that succeeds, whatever it found: when no conversation is linked to the lead, only what
  -- the search did is committed. Otherwise the conversation moves to Recommendation if it was in
  -- Qualification, and exactly one ResponseReady with the rendered result is committed with it.
  pub handle_profile_completed_delivers :
      (service : RecommendationService) (lead_id : ℕ) (db : Database) (found : Option Conversation)
      → (search service organization_id lead_id (fresh db)).0 ≡ ok (result, retries)
      → (get_by_lead_id organization_id lead_id
          (search service organization_id lead_id (fresh db)).1).0
        ≡ ok found
      → handle_profile_completed decimal service clock organization_id lead_id db ≡ (
        ok retries,
        delivered decimal
            (clock 4)
            organization_id
            result
            found
            (search service organization_id lead_id (fresh db)).1.working,
      )
  unfolding handle_profile_completed
  handle_profile_completed_delivers service lead_id db found h k =
      let s = (search service organization_id lead_id (fresh db)).1 in
      rw h (ap (λ o. (o.0, o.1.committed)) (after_search_lem found lead_id s k))
