-- ===== src/Worker/Delivery.antt =====
-- The consumer that delivers a recommendation leaves the inbox of the worker alone.
use leadto_sales_re.Base.{ℕ, ◌≡◌, refl, Option, none, some, List, [], ◌∷◌, if◌then◌else◌, select}
use leadto_sales_re.Event.{event_at, Stamp, EventFields, response_ready, profile_completed}
use leadto_sales_re.Result.{Result, ok, err}
use leadto_sales_re.Database.{Database}
use leadto_sales_re.EventBus.{publish}
use leadto_sales_re.Session.{Action, pure, lift, gets, commit, scalar_one_or_none, ◌>>=◌}
use leadto_sales_re.Session.Untouched.{
  Untouched, bind-Untouched, then-Untouched, lift-Untouched, if-Untouched, commit-Untouched,
  in_session-Untouched,
}
use leadto_sales_re.Conversation.State.{qualification, recommendation, is_state}
use leadto_sales_re.Conversation.Model.{Conversation, transition_to}
use leadto_sales_re.Conversation.Repository.{get_by_lead_id, to_domain_option, save, has_lead}
use leadto_sales_re.Lead.ProfileStore as ProfileStore
use leadto_sales_re.Lead.Sync.Untouched.{inbox, check_before_decision-Untouched}
use leadto_sales_re.Lead.Guard.{check_before_decision}
use leadto_sales_re.Recommendation.{RecommendationResult}
use leadto_sales_re.Recommendation.Retrieval.{filter_candidates}
use leadto_sales_re.Recommendation.Service.{search, gated, run_guard}
use leadto_sales_re.Recommendation.Wiring as Recommendation
use leadto_sales_re.Recommendation.Wiring.{
  format_recommendation_message, advance, advance_reason, deliver, after_search, is_skipped,
  complete_profile,
}
use leadto_sales_re.Worker.{Surroundings, on_profile_completed, service}

module _ (w : Surroundings) where
  loaded-Untouched : (organization lead : ℕ) → Untouched inbox (get_by_lead_id organization lead)
  unfolding get_by_lead_id
  loaded-Untouched organization lead =
      bind-Untouched inbox (gets (λ db. select (has_lead organization lead) db.conversations))
        (λ rows. lift (scalar_one_or_none rows) >>= λ row. lift (to_domain_option row)) (λ x s p. p)
        (λ rows.
          bind-Untouched inbox (lift (scalar_one_or_none rows)) (λ row. lift (to_domain_option row))
            (lift-Untouched inbox (scalar_one_or_none rows))
            (λ row. lift-Untouched inbox (to_domain_option row)))

  advanced-Untouched : (t : Stamp) (c : Conversation) → Untouched inbox (advance t c)
  unfolding save
  advanced-Untouched t c =
      let moved = transition_to t recommendation advance_reason none none c in
      if-Untouched inbox (is_state c.state qualification) (lift moved.0 >>= λ o. save moved.1)
        (pure tt)
        (bind-Untouched inbox (lift moved.0) (λ o. save moved.1) (lift-Untouched inbox moved.0)
          (λ o x s p. p))
        (λ x s p. p)

  -- The message that the delivery publishes.
  abbrev answered : ℕ → RecommendationResult → Conversation → Action (Unit {0})
  answered organization result c = publish (
      event_at (w.clock 4) organization (
        response_ready c.id c.chatwoot_conversation_id
          (format_recommendation_message w.decimal result))
      ∷ [])

  delivered-Untouched :
      (organization : ℕ) (result : RecommendationResult) (found : Option Conversation)
      → Untouched inbox (deliver w.decimal w.clock organization result found)
  unfolding publish
  delivered-Untouched organization result none = commit-Untouched inbox
  delivered-Untouched organization result (some c) =
      then-Untouched inbox (advance (w.clock 3) c) _ (advanced-Untouched (w.clock 3) c) (
        then-Untouched inbox (answered organization result c) commit (λ x s p. p)
          (commit-Untouched inbox))

  after_search-Untouched :
      (organization lead : ℕ) (r : Result (RecommendationResult × List ℕ))
      → Untouched inbox (after_search w.decimal w.clock organization lead r)
  after_search-Untouched organization lead (err e) =
      lift-Untouched inbox {A = List ℕ} (if is_skipped e then ok [] else err e)
  after_search-Untouched organization lead (ok (result, retries)) =
      bind-Untouched inbox (get_by_lead_id organization lead) _ (loaded-Untouched organization lead)
        (λ found.
          then-Untouched inbox (deliver w.decimal w.clock organization result found) _
            (delivered-Untouched organization result found) (λ x s p. p))

  searched-Untouched :
      (organization lead : ℕ) → Untouched inbox (search (service w) organization lead)
  unfolding search ProfileStore.get_by_lead_id
  searched-Untouched organization lead =
      then-Untouched inbox (run_guard (service w).staleness_guard lead) _
        (bind-Untouched inbox (check_before_decision w.client w.clock w.stale_after lead) _
          (check_before_decision-Untouched w.client w.clock w.stale_after lead) (λ l x s p. p))
        (bind-Untouched inbox (ProfileStore.get_by_lead_id lead) _ (λ x s p. p)
          (λ found.
            bind-Untouched inbox (lift (gated (service w).threshold lead found)) _
              (lift-Untouched inbox (gated (service w).threshold lead found))
              (λ profile.
                bind-Untouched inbox (λ s. (filter_candidates organization profile s.working, s)) _
                  (λ x s p. p) (λ candidates x s p. p))))

  pub on_profile_completed_keeps :
      (o : Option ℕ) (f : EventFields) (db : Database)
      → (on_profile_completed w o f db).1.inbox_records ≡ db.inbox_records
  unfolding Recommendation.handle_profile_completed
  on_profile_completed_keeps none f db = refl
  on_profile_completed_keeps (some organization) (profile_completed lead crm c profile) db =
      in_session-Untouched inbox (complete_profile w.decimal (service w) w.clock organization lead)
        db
        (λ x s p.
          after_search-Untouched organization lead (search (service w) organization lead s).0 x
            (search (service w) organization lead s).1 (searched-Untouched organization lead x s p))
  on_profile_completed_keeps (some organization) _ db = refl
