-- ===== src/Conversation/Coordinator/Inbox.antt =====
-- A handled message leaves the inbox of the worker alone.
use leadto_sales_re.Base.{ℕ, String, ◌≡◌, Bool, true, false, Option, none, some}
use leadto_sales_re.Event.{Stamp}
use leadto_sales_re.Result.{Result, ok, err}
use leadto_sales_re.Database.{Database}
use leadto_sales_re.Base.Table.{get_row}
use leadto_sales_re.EventBus.{publish}
use leadto_sales_re.Session.{pure, lift, gets, commit}
use leadto_sales_re.Session.Untouched.{
  Untouched, bind-Untouched, lift-Untouched, if-Untouched, in_session-Untouched,
}
use leadto_sales_re.Lead.Sync.Untouched.{inbox}
use leadto_sales_re.Conversation.State.{new, ai_owned, qualification, assigned_human, is_state}
use leadto_sales_re.Conversation.Model.{Conversation, OwnerType, touch, transition_to}
use leadto_sales_re.Conversation.Policy.{OwnershipContext, OwnershipDecision, evaluate}
use leadto_sales_re.Conversation.Guardrail.{Patterns, BypassDecision, check}
use leadto_sales_re.Conversation.Repository.{
  add_decision, save, get, to_domain_option, conversation_key,
}
use leadto_sales_re.Conversation.Coordinator.{
  Recorder, Responder, SidebarPort, add_trace, finish_trace, trace_decision, load_system_prompt,
  on_object, transfer_to_human, take_ownership, if_new, reply, conversational_turn, turn,
  partial_record, close_turn, handle_found, show, handle_option, handle_message,
  handle_message_received,
}

on_object-Untouched : {A C : Type 0} (o : Result A × C) → Untouched inbox (on_object o)
on_object-Untouched (ok a, c) x s p = p
on_object-Untouched (err e, c) x s p = p

-- The context that the policy decides on.
abbrev context : Conversation → Option String → Bool → OwnershipContext
context c broker bypass = record {
  conversation = c;
  broker_requested = broker;
  is_guardrail_bypass = bypass;
}

decision-Untouched :
    (t : Stamp) (c : Conversation) (d : OwnershipDecision) → Untouched inbox (add_decision t c d)
unfolding add_decision
decision-Untouched t c d x s p = p

transfer-Untouched :
    (clock : ℕ → Stamp) (c : Conversation) (broker : Option String)
    → Untouched inbox (transfer_to_human clock c broker)
unfolding transfer_to_human
transfer-Untouched clock c broker =
    bind-Untouched inbox (lift (evaluate (context c broker true))) _ (λ x s p. p)
      (λ d.
        bind-Untouched inbox (add_decision (clock 1) c d) _ (decision-Untouched (clock 1) c d) (λ r.
          bind-Untouched inbox
            (on_object (
              transition_to (clock 2) assigned_human d.explanation (some OwnerType.human) d.owner_id
                c))
            _
            (on_object-Untouched (
              transition_to (clock 2) assigned_human d.explanation (some OwnerType.human) d.owner_id
                c))
            (λ m x s p. p)))

ownership-Untouched :
    (clock : ℕ → Stamp) (c : Conversation) → Untouched inbox (take_ownership clock c)
unfolding take_ownership
ownership-Untouched clock c =
    bind-Untouched inbox (lift (evaluate (context c none false))) _ (λ x s p. p)
      (λ d.
        bind-Untouched inbox (add_decision (clock 1) c d) _ (decision-Untouched (clock 1) c d) (λ r.
          bind-Untouched inbox
            (on_object (transition_to (clock 2) ai_owned d.explanation (some OwnerType.ai) none c))
            _
            (on_object-Untouched
              (transition_to (clock 2) ai_owned d.explanation (some OwnerType.ai) none c))
            (λ owned.
              bind-Untouched inbox
                (on_object (
                  transition_to (clock 3) qualification
                    "Ownership assigned to AI; beginning conversational qualification" none none
                    owned.1))
                _
                (on_object-Untouched (
                  transition_to (clock 3) qualification
                    "Ownership assigned to AI; beginning conversational qualification" none none
                    owned.1))
                (λ m x s p. p))))

reply-Untouched :
    (respond : Responder) (clock : ℕ → Stamp) (text : String) (c : Conversation)
    → Untouched inbox (reply respond clock text c)
unfolding reply load_system_prompt
reply-Untouched respond clock text c =
    bind-Untouched inbox (load_system_prompt c.organization_id) _ (λ x s p. p)
      (λ prompt.
        bind-Untouched inbox (lift (respond prompt c.id text)) _
          (lift-Untouched inbox (respond prompt c.id text)) (λ r x s p. p))

turn-Untouched :
    (respond : Responder) (clock : ℕ → Stamp) (c : Conversation) (text : String)
    (b : Option BypassDecision)
    → Untouched inbox (turn respond clock c text b)
unfolding conversational_turn
turn-Untouched respond clock c text (some b) =
    bind-Untouched inbox (transfer_to_human clock c b.broker_requested) _
      (transfer-Untouched clock c b.broker_requested) (λ d x s p. p)
turn-Untouched respond clock c text none =
    bind-Untouched inbox (conversational_turn respond clock c text) _
      (bind-Untouched inbox (if_new clock c) (reply respond clock text)
        (if-Untouched inbox (is_state c.state new) (take_ownership clock c) (pure c)
          (ownership-Untouched clock c) (λ x s p. p))
        (reply-Untouched respond clock text))
      (λ d x s p. p)

finish-Untouched :
    {A : Type 0} (t : Stamp) (organization conversation : ℕ) (partial : Recorder)
    (r : Result (Recorder × A))
    → Untouched inbox (finish_trace (add_trace t organization conversation) partial r)
finish-Untouched t organization conversation partial (ok (r, a)) x s p = p
finish-Untouched t organization conversation partial (err e) x s p = p

close-Untouched : (c : Conversation) → Untouched inbox (close_turn c)
unfolding close_turn save publish commit
close-Untouched c x s p = (p.0, p.0)

found-Untouched :
    (patterns : Patterns) (respond : Responder) (clock : ℕ → Stamp) (organization : ℕ)
    (text : String) (found : Conversation)
    → Untouched inbox (handle_found patterns respond clock organization text found)
unfolding handle_found
found-Untouched patterns respond clock organization text found =
    let c = touch none (clock 0).now found in
    let bypass = check patterns text in
    bind-Untouched inbox
      (trace_decision (clock 5) organization c.id (partial_record text bypass)
        (turn respond clock c text bypass))
      close_turn
      (λ x s p.
        finish-Untouched (clock 5) organization c.id (partial_record text bypass)
          (turn respond clock c text bypass s).0 x (turn respond clock c text bypass s).1
          (turn-Untouched respond clock c text bypass x s p))
      close-Untouched

show-Untouched : (sidebar : SidebarPort) (c : Conversation) → Untouched inbox (show sidebar c)
show-Untouched none c x s p = p
show-Untouched (some send) c x s p = p

loaded-Untouched : (id : ℕ) → Untouched inbox (get id)
unfolding get
loaded-Untouched id =
    bind-Untouched inbox (gets (λ db. get_row conversation_key id db.conversations))
      (λ row. lift (to_domain_option row)) (λ x s p. p)
      (λ row. lift-Untouched inbox (to_domain_option row))

module _ (patterns : Patterns) (respond : Responder) (sidebar : SidebarPort) (clock : ℕ → Stamp)
    (organization : ℕ) (text : String) where
  option-Untouched :
      (found : Option Conversation)
      → Untouched inbox (handle_option patterns respond sidebar clock organization text found)
  option-Untouched none = λ x s p. p
  option-Untouched (some found) =
      bind-Untouched inbox (handle_found patterns respond clock organization text found)
        (show sidebar) (found-Untouched patterns respond clock organization text found)
        (show-Untouched sidebar)

  pub handle_message_received_keeps :
      (conversation : ℕ) (db : Database)
      → (handle_message_received patterns respond sidebar clock organization conversation text
          db).1.inbox_records
        ≡ db.inbox_records
  unfolding handle_message_received handle_message
  handle_message_received_keeps conversation db =
      in_session-Untouched inbox
        (handle_message patterns respond sidebar clock organization conversation text) db
        (bind-Untouched inbox (get conversation)
          (handle_option patterns respond sidebar clock organization text)
          (loaded-Untouched conversation) option-Untouched)
