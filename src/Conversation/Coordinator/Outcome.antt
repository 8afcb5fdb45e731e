-- ===== src/Conversation/Coordinator/Outcome.antt =====
-- What one handled message does to the database, case by case.
use leadto_sales_re.Base.{
  ℕ, ◌+◌, String, ◌≡◌, refl, ap, ◌∙◌, ◌≢◌, true, false, none, some, List, [], ◌∷◌, ◌++◌, map,
  length, length-append, All,
}
use leadto_sales_re.Event.{DomainEvent, Stamp, event_at, response_ready}
use leadto_sales_re.Result.{Result, Error, ok, err, invalid_transition}
use leadto_sales_re.Database.{Database}
use leadto_sales_re.Session.{Session, fresh, continue}
use leadto_sales_re.EventBus.{outbox_row}
use leadto_sales_re.Conversation.State.{
  new, ai_owned, qualification, assigned_human, is_state, allows,
}
use leadto_sales_re.Conversation.Model.{Conversation, OwnerType, Ownership, touch, record_event}
use leadto_sales_re.Conversation.Ownership.{replace_ownership_history}
use leadto_sales_re.Conversation.Policy.{broker_decision, ai_decision}
use leadto_sales_re.Conversation.Guardrail.{Patterns, BypassDecision, check}
use leadto_sales_re.Conversation.Repository.{get, add_decision}
use leadto_sales_re.Conversation.Repository.RoundTrip.{loaded, stored, loaded-saved, loaded_fresh}
use leadto_sales_re.Conversation.Coordinator.{
  bypass_record, reply_record, Responder, SidebarPort, show, active_prompt, handle_found,
  handle_message, handle_message_received,
}
use leadto_sales_re.Conversation.Coordinator.Turn.{
  given_to_human, given_to_ai, asks_broker, asks_nothing, handle_found_done, handle_found_failed,
  transfer_allowed, transfer_refused, later_phase, first_phase, with_reply,
  replace_ownership_identity, IsTransfer, replace_ownership_events, replace_ownership_contact,
}

show_keeps : (sidebar : SidebarPort) (c : Conversation) (s : Session) → (show sidebar c s).1 ≡ s
show_keeps none c s = refl
show_keeps (some send) c s = refl

continue_keeps :
    (sidebar : SidebarPort) (r : Result Conversation) (s : Session)
    → (continue r (show sidebar) s).1 ≡ s
continue_keeps sidebar (ok c) s = show_keeps sidebar c s
continue_keeps sidebar (err e) s = refl

module _ (patterns : Patterns) (respond : Responder) (sidebar : SidebarPort) (clock : ℕ → Stamp)
    (organization conversation : ℕ) (text : String) (db : Database) where
  abbrev run : Result (Unit {0}) × Database
  run = handle_message_received patterns respond sidebar clock organization conversation text db

  abbrev turn_of : Conversation → Result Conversation × Session
  turn_of found = handle_found patterns respond clock organization text found (fresh db)

  received :
      (found : Conversation)
      → loaded conversation db ≡ ok (some found)
      → run.1 ≡ (turn_of found).1.committed
  unfolding handle_message_received handle_message get
  received found h = rw h (
      ap (λ (s : Session). s.committed)
        (continue_keeps sidebar (turn_of found).0 (turn_of found).1))

  received_failed :
      (found : Conversation) (e : Error)
      → loaded conversation db ≡ ok (some found)
      → (turn_of found).0 ≡ err e
      → run.0 ≡ err e
  unfolding handle_message_received handle_message get
  received_failed found e h f = rw h (rw f)

  -- For a stored conversation whose state allows no transfer to a person, when the guardrail finds
  -- that the message asks for one: the handler raises `InvalidTransitionError`, and the database
  -- stays as it was.
  pub bypass_refused :
      (found : Conversation) (b : BypassDecision)
      → loaded conversation db ≡ ok (some found)
      → check patterns text ≡ some b
      → allows found.state assigned_human ≡ false
      → run ≡ (err (invalid_transition found.state assigned_human), db)
  unfolding touch add_decision
  bypass_refused found b h e n =
      let c = touch none (clock 0).now found in
      let moved = transfer_refused clock c b.broker_requested (fresh db) n in
      let (raised, kept) =
        handle_found_failed patterns respond clock organization text found (fresh db)
          (invalid_transition found.state assigned_human)
          (add_decision (clock 1) c (broker_decision (asks_broker c b.broker_requested))
            (fresh db)).1
          (rw e (rw moved refl)) in
      λ i. (
        received_failed found (invalid_transition found.state assigned_human) h raised i,
        (received found h ∙ kept) i,
      )

  -- For a stored conversation whose state allows it, when the guardrail finds that the message asks
  -- for a person: afterwards the conversation is stored as assigned to a human owner, one decision
  -- is recorded, and nothing but transfers of the ownership is published, no reply.
  pub bypass_transfers :
      (found : Conversation) (b : BypassDecision)
      → loaded conversation db ≡ ok (some found)
      → check patterns text ≡ some b
      → allows found.state assigned_human ≡ true
      → (c : Conversation) × (events : List DomainEvent) × (loaded conversation run.1 ≡ ok (some c))
        × (c.state ≡ assigned_human)
        × (c.ownership.owner_type ≡ OwnerType.human)
        × (c.last_contact_at ≡ (clock 0).now)
        × (run.1.outbox_events ≡ db.outbox_events ++ map outbox_row events)
        × All IsTransfer events
        × (length run.1.ownership_decisions ≡ length db.ownership_decisions + 1)
  unfolding touch add_decision
  bypass_transfers found b h e a =
      let c = touch none (clock 0).now found in
      let c' = given_to_human clock c b.broker_requested in
      let d = broker_decision (asks_broker c b.broker_requested) in
      let moved = transfer_allowed clock c b.broker_requested (fresh db) a in
      let done =
        received found h
        ∙ ap (λ (o : Result Conversation × Session). o.1.committed)
            (handle_found_done patterns respond clock organization text found (fresh db)
              (bypass_record text b d) c' (add_decision (clock 1) c d (fresh db)).1
              (rw e (rw moved refl))) in
      let history =
        replace_ownership_history (clock 2) OwnerType.human none d.explanation
          (record c { state = assigned_human }) in
      let same =
        replace_ownership_identity (clock 2) OwnerType.human none d.explanation
          (record c { state = assigned_human }) in
      (
        stored c',
        c'.domain_events,
        loaded-saved c' found conversation db run.1 h
            (record {
              id = same.id;
              organization = same.organization;
              chatwoot = same.chatwoot;
              channel = same.channel;
              created = same.created;
            })
            (ap (λ (x : Database). x.conversations) done),
        history.1,
        ap (λ (o : Ownership). o.owner_type) history.0,
        replace_ownership_contact (clock 2) OwnerType.human none d.explanation
            (record c { state = assigned_human }),
        ap (λ (x : Database). x.outbox_events) done,
        replace_ownership_events (clock 2) OwnerType.human none d.explanation
            (record c { state = assigned_human }) (loaded_fresh conversation db found h).1,
        ap (λ (x : Database). length x.ownership_decisions) done
            ∙ length-append db.ownership_decisions _,
      )

  -- For a stored conversation past its first turn, when the guardrail finds no bypass, the prompt
  -- loads and the responder answers: the conversation keeps its state and its owner, whoever that
  -- is, no decision is recorded, and exactly the reply is published.
  pub later_turn :
      (found : Conversation) (prompt response : String)
      → loaded conversation db ≡ ok (some found)
      → check patterns text ≡ none
      → is_state found.state new ≡ false
      → active_prompt found.organization_id db ≡ ok prompt
      → respond prompt found.id text ≡ ok response
      → (c : Conversation) × (sent : DomainEvent) × (loaded conversation run.1 ≡ ok (some c))
        × (c.state ≡ found.state)
        × (c.ownership ≡ found.ownership)
        × (c.last_contact_at ≡ (clock 0).now)
        × (run.1.outbox_events ≡ db.outbox_events ++ outbox_row sent ∷ [])
        × (sent.fields ≡ response_ready found.id found.chatwoot_conversation_id response)
        × (run.1.ownership_decisions ≡ db.ownership_decisions)
  unfolding touch record_event
  later_turn found prompt response h g n p r =
      let c = touch none (clock 0).now found in
      let c' = with_reply clock response c in
      let answered = later_phase respond clock text prompt response c (fresh db) n p r in
      let done =
        received found h
        ∙ ap (λ (o : Result Conversation × Session). o.1.committed)
            (handle_found_done patterns respond clock organization text found (fresh db)
              (reply_record response) c' (fresh db) (rw g (rw answered refl))) in
      let reply =
        event_at (clock 4) c.organization_id
          (response_ready c.id c.chatwoot_conversation_id response) in
      (
        stored c',
        reply,
        loaded-saved c' found conversation db run.1 h
            (record {
              id = refl;
              organization = refl;
              chatwoot = refl;
              channel = refl;
              created = refl;
            })
            (ap (λ (x : Database). x.conversations) done),
        refl,
        refl,
        refl,
        ap (λ (x : Database). x.outbox_events) done
            ∙ ap (λ es. db.outbox_events ++ map outbox_row (es ++ reply ∷ []))
                (loaded_fresh conversation db found h).1,
        refl,
        ap (λ (x : Database). x.ownership_decisions) done,
      )

  -- For a stored new conversation that no human owns, when the guardrail finds no bypass, the
  -- prompt loads and the responder answers: the AI owns it afterwards and qualification has begun,
  -- one decision is recorded, and transfers of the ownership, if any, then the reply are published.
  pub first_turn :
      (found : Conversation) (prompt response : String)
      → loaded conversation db ≡ ok (some found)
      → check patterns text ≡ none
      → found.state ≡ new
      → found.ownership.owner_type ≢ OwnerType.human
      → active_prompt found.organization_id db ≡ ok prompt
      → respond prompt found.id text ≡ ok response
      → (c : Conversation) × (events : List DomainEvent) × (sent : DomainEvent) × (loaded
            conversation run.1
          ≡ ok (some c))
        × (c.state ≡ qualification)
        × (c.ownership.owner_type ≡ OwnerType.ai)
        × (run.1.outbox_events ≡ db.outbox_events ++ map outbox_row (events ++ sent ∷ []))
        × All IsTransfer events
        × (sent.fields ≡ response_ready found.id found.chatwoot_conversation_id response)
        × (length run.1.ownership_decisions ≡ length db.ownership_decisions + 1)
  unfolding touch record_event add_decision
  first_turn found prompt response h g n o p r =
      let c = touch none (clock 0).now found in
      let owned = given_to_ai clock c in
      let c' = with_reply clock response owned in
      let d = ai_decision (asks_nothing c) in
      let answered = first_phase respond clock text prompt response c (fresh db) n o p r in
      let done =
        received found h
        ∙ ap (λ (o : Result Conversation × Session). o.1.committed)
            (handle_found_done patterns respond clock organization text found (fresh db)
              (reply_record response) c' (add_decision (clock 1) c d (fresh db)).1
              (rw g (rw answered refl))) in
      let history =
        replace_ownership_history (clock 2) OwnerType.ai none d.explanation
          (record c { state = ai_owned }) in
      let same =
        replace_ownership_identity (clock 2) OwnerType.ai none d.explanation
          (record c { state = ai_owned }) in
      (
        stored c',
        owned.domain_events,
        event_at (clock 4) owned.organization_id
            (response_ready owned.id owned.chatwoot_conversation_id response),
        loaded-saved c' found conversation db run.1 h
            (record {
              id = same.id;
              organization = same.organization;
              chatwoot = same.chatwoot;
              channel = same.channel;
              created = same.created;
            })
            (ap (λ (x : Database). x.conversations) done),
        refl,
        ap (λ (o : Ownership). o.owner_type) history.0,
        ap (λ (x : Database). x.outbox_events) done,
        replace_ownership_events (clock 2) OwnerType.ai none d.explanation
            (record c { state = ai_owned }) (loaded_fresh conversation db found h).1,
        rw same.id (rw same.chatwoot refl),
        ap (λ (x : Database). length x.ownership_decisions) done
            ∙ length-append db.ownership_decisions _,
      )
