-- ===== src/Conversation/Coordinator/Turn.antt =====
-- One turn of the coordinator, case by case: a bypass, a first turn, a later turn, an error.
use leadto_sales_re.Base.{
  ℕ, String, ◌≡◌, refl, sym, ap, ◌∙◌, subst, ◌≢◌, inl, inr, true, false, Option, none, some, [],
  ◌∷◌, ◌++◌, map, arith, All,
}
use leadto_sales_re.Event.{DomainEvent, Stamp, event_at, event_type, response_ready}
use leadto_sales_re.Result.{Result, Error, ok, err, invalid_transition}
use leadto_sales_re.Database.{Database}
use leadto_sales_re.Session.{continue, Session, commit}
use leadto_sales_re.EventBus.{publish, outbox_row}
use leadto_sales_re.Conversation.State.{
  new, ai_owned, qualification, assigned_human, is_state, allows,
}
use leadto_sales_re.Conversation.Model.{
  Conversation, OwnerType, touch, record_event, pull_domain_events, transition_to,
  replace_ownership,
}
use leadto_sales_re.Conversation.Ownership.{
  transferred, transition_allowed, replace_ownership_history,
}
use leadto_sales_re.Conversation.Policy.{OwnershipContext, evaluate, broker_decision, ai_decision}
use leadto_sales_re.Conversation.Guardrail.{Patterns, check}
use leadto_sales_re.Conversation.Repository.{save, add_decision, save_rows}
use leadto_sales_re.Conversation.Repository.RoundTrip.{SameIdentity}
use leadto_sales_re.Conversation.Coordinator.{
  finish_trace, partial_record, close_turn, reply, active_prompt, turn, add_trace, Responder,
  Recorder, transfer_to_human, take_ownership, conversational_turn, load_system_prompt,
  handle_found,
}

abbrev pub asks_broker : Conversation → Option String → OwnershipContext
asks_broker c broker = record {
  conversation = c;
  broker_requested = broker;
  is_guardrail_bypass = true;
}

abbrev pub asks_nothing : Conversation → OwnershipContext
asks_nothing c = record { conversation = c; broker_requested = none; is_guardrail_bypass = false }

-- The conversation after a transfer to a person.
abbrev pub given_to_human : (ℕ → Stamp) → Conversation → Option String → Conversation
given_to_human clock c broker =
    replace_ownership (clock 2) OwnerType.human none
      (broker_decision (asks_broker c broker)).explanation (record c { state = assigned_human })

module _ (clock : ℕ → Stamp) (c : Conversation) (broker : Option String) (s : Session) where
  pub transfer_allowed :
      allows c.state assigned_human ≡ true
      → transfer_to_human clock c broker s ≡ (
        ok (broker_decision (asks_broker c broker), given_to_human clock c broker),
        (add_decision (clock 1) c (broker_decision (asks_broker c broker)) s).1,
      )
  unfolding transfer_to_human evaluate add_decision transition_to
  transfer_allowed h = rw h

  pub transfer_refused :
      allows c.state assigned_human ≡ false
      → transfer_to_human clock c broker s ≡ (
        err (invalid_transition c.state assigned_human),
        (add_decision (clock 1) c (broker_decision (asks_broker c broker)) s).1,
      )
  unfolding transfer_to_human evaluate add_decision transition_to
  transfer_refused h = rw h

-- The conversation after the first turn took it for the AI.
abbrev pub given_to_ai : (ℕ → Stamp) → Conversation → Conversation
given_to_ai clock c =
    record (replace_ownership (clock 2) OwnerType.ai none (ai_decision (asks_nothing c)).explanation
      (record c { state = ai_owned })) { state = qualification }

replace_ownership-state :
    (t : Stamp) (o : OwnerType) (i : Option ℕ) (reason : String) (c : Conversation)
    → (replace_ownership t o i reason c).state ≡ c.state
replace_ownership-state t o i reason c = (replace_ownership_history t o i reason c).1

is_new : (c : Conversation) → c.state ≡ new → is_state c.state new ≡ true
is_new c h = rw h refl

evaluate_unhuman :
    (c : Conversation)
    → c.ownership.owner_type ≢ OwnerType.human
    → evaluate (asks_nothing c) ≡ ok (ai_decision (asks_nothing c))
unfolding evaluate
evaluate_unhuman c h = ground arith

module _ (clock : ℕ → Stamp) (c : Conversation) (s : Session) where
  take_new :
      c.state ≡ new
      → c.ownership.owner_type ≢ OwnerType.human
      → take_ownership clock c s
        ≡ (ok (given_to_ai clock c), (add_decision (clock 1) c (ai_decision (asks_nothing c)) s).1)
  unfolding take_ownership add_decision
  take_new h o =
      let owned =
        replace_ownership (clock 2) OwnerType.ai none (ai_decision (asks_nothing c)).explanation
          (record c { state = ai_owned }) in
      let first =
        transition_allowed (clock 2) ai_owned (ai_decision (asks_nothing c)).explanation
          (some OwnerType.ai) none c (rw h (unfold allows in refl)) in
      let second =
        transition_allowed (clock 3) qualification
          "Ownership assigned to AI; beginning conversational qualification" none none owned
          (rw
            (replace_ownership-state (clock 2) OwnerType.ai none
              (ai_decision (asks_nothing c)).explanation (record c { state = ai_owned }))
            (unfold allows in refl)) in
      rw (evaluate_unhuman c o, first, second)

  pub take_ownership-Uncommitted : (take_ownership clock c s).1.committed ≡ s.committed
  unfolding take_ownership evaluate add_decision transition_to
  take_ownership-Uncommitted = ground arith

pub replace_ownership_identity :
    (t : Stamp) (o : OwnerType) (i : Option ℕ) (reason : String) (c : Conversation)
    → SameIdentity (replace_ownership t o i reason c) c
unfolding replace_ownership record_event
replace_ownership_identity t o i reason c = ground arith

abbrev pub IsTransfer : DomainEvent → Type 0
IsTransfer e = event_type e.fields ≡ "OwnershipTransferred"

-- Replacing the owner collects at most one transfer, and is no activity of the lead.
pub replace_ownership_events :
    (t : Stamp) (o : OwnerType) (i : Option ℕ) (reason : String) (c : Conversation)
    → c.domain_events ≡ []
    → All IsTransfer (replace_ownership t o i reason c).domain_events
replace_ownership_events t o i reason c h = elim (replace_ownership_history t o i reason c).2 [
  | inl (_, _, e) ↦ subst (All IsTransfer) (sym (e ∙ h)) tt
  | inr (_, e) ↦
      subst (All IsTransfer) (sym (e ∙ ap (λ es. es ++ transferred t o i reason c ∷ []) h))
        (refl, tt)
]

pub replace_ownership_contact :
    (t : Stamp) (o : OwnerType) (i : Option ℕ) (reason : String) (c : Conversation)
    → (replace_ownership t o i reason c).last_contact_at ≡ c.last_contact_at
unfolding replace_ownership record_event
replace_ownership_contact t o i reason c = ground arith

-- The conversation with the reply that it is going to publish.
abbrev pub with_reply : (ℕ → Stamp) → String → Conversation → Conversation
with_reply clock response c =
    record_event
      (event_at (clock 4) c.organization_id
        (response_ready c.id c.chatwoot_conversation_id response))
      c

module _ (respond : Responder) (clock : ℕ → Stamp) (text : String) (prompt response : String) where
  reply_phase :
      (c : Conversation) (s : Session)
      → active_prompt c.organization_id s.working ≡ ok prompt
      → respond prompt c.id text ≡ ok response
      → reply respond clock text c s ≡ (ok (response, with_reply clock response c), s)
  unfolding reply load_system_prompt
  reply_phase c s p r = rw p (rw r)

  pub later_phase :
      (c : Conversation) (s : Session)
      → is_state c.state new ≡ false
      → active_prompt c.organization_id s.working ≡ ok prompt
      → respond prompt c.id text ≡ ok response
      → conversational_turn respond clock c text s ≡ (ok (response, with_reply clock response c), s)
  unfolding conversational_turn
  later_phase c s n p r = rw n (reply_phase c s p r)

  pub first_phase :
      (c : Conversation) (s : Session)
      → c.state ≡ new
      → c.ownership.owner_type ≢ OwnerType.human
      → active_prompt c.organization_id s.working ≡ ok prompt
      → respond prompt c.id text ≡ ok response
      → conversational_turn respond clock c text s ≡ (
        ok (response, with_reply clock response (given_to_ai clock c)),
        (add_decision (clock 1) c (ai_decision (asks_nothing c)) s).1,
      )
  unfolding conversational_turn
  first_phase c s n o p r =
      let same =
        replace_ownership_identity (clock 2) OwnerType.ai none
          (ai_decision (asks_nothing c)).explanation (record c { state = ai_owned }) in
      rw (is_new c n) (
        rw (take_new clock c s n o) (
          reply_phase (given_to_ai clock c)
            (add_decision (clock 1) c (ai_decision (asks_nothing c)) s).1
            (unfold add_decision active_prompt in rw same.organization p) (rw same.id r)))

-- The way back to the session's commit, after the traced block.
abbrev pub finished : (ℕ → Stamp) → ℕ → ℕ → Recorder → Conversation → Session → Database
finished clock organization id recorder c s =
    let db = add_trace (clock 5) organization id recorder s.working in
    record db {
      conversations = save_rows c db.conversations;
      outbox_events = db.outbox_events ++ map outbox_row c.domain_events;
    }

module _ (patterns : Patterns) (respond : Responder) (clock : ℕ → Stamp) (organization : ℕ)
    (text : String) (found : Conversation) (s : Session) where
  abbrev pub touched : Conversation
  touched = touch none (clock 0).now found

  pub handle_found_done :
      (recorder : Recorder) (c : Conversation) (s' : Session)
      → turn respond clock touched text (check patterns text) s ≡ (ok (recorder, c), s')
      → let db = finished clock organization touched.id recorder c s' in
        handle_found patterns respond clock organization text found s
        ≡ (ok (pull_domain_events c).1, record { working = db; committed = db })
  unfolding handle_found close_turn save publish commit pull_domain_events
  handle_found_done recorder c s' h =
      ap
        (λ (o : Result (Recorder × Conversation) × Session).
          let (r, s1) =
            finish_trace (add_trace (clock 5) organization touched.id)
              (partial_record text (check patterns text)) o.0 o.1 in
          continue r close_turn s1)
        h

  pub handle_found_failed :
      (e : Error) (s' : Session)
      → turn respond clock touched text (check patterns text) s ≡ (err e, s')
      → let (r, s1) = handle_found patterns respond clock organization text found s in
        (r ≡ err e) × (s1.committed ≡ s'.committed)
  unfolding handle_found
  handle_found_failed e s' h = rw h (refl, refl)
