-- ===== src/Tests/Conversations.antt =====
-- Examples of the conversation's theorems at concrete inputs.
use leadto_sales_re.Base.{
  ◌+◌, String, ◌≡◌, refl, ◌≢◌, ◌⊎◌, true, false, none, some, List, [], ◌∷◌, ◌++◌, map, arith,
  length, All,
}
use leadto_sales_re.Event.{DomainEvent, response_ready}
use leadto_sales_re.Result.{Result, ok, err, invalid_transition, not_implemented_placeholder}
use leadto_sales_re.Database.{Database}
use leadto_sales_re.EventBus.{outbox_row}
use leadto_sales_re.Conversation.State.{
  new, qualification, dormant, assigned_human, closed_won, reactivated, ownership_evaluation,
  state_of_value, allows, allowed_transitions, visit,
}
use leadto_sales_re.Conversation.State.Reach.{
  Run, start, then, transition, Visits, reentry_gateway, can_be_won,
}
use leadto_sales_re.Conversation.Model.{
  touch, Conversation, OwnerType, channel_of_value, owner_of_value, transition_to,
}
use leadto_sales_re.Conversation.Ownership.Lifecycle.{
  Call, transit, fall_dormant, after_calls, after_calls-Run,
}
use leadto_sales_re.Conversation.Policy.{
  OwnershipContext, OwnershipDecision, evaluate, evaluate_outcome, inputs_snapshot,
}
use leadto_sales_re.Conversation.Guardrail.{check, check_patterns, check_names_no_stopword, IsNamed}
use leadto_sales_re.Conversation.Repository.{
  get, add_decision, to_domain, to_domain_option, conversation_key, save_rows,
}
use leadto_sales_re.Base.Table.{get_row}
use leadto_sales_re.Conversation.Repository.RoundTrip.{loaded, stored, load-save}
use leadto_sales_re.Conversation.Coordinator.{
  handle_message, handle_found, transfer_to_human, handle_message_received, active_prompt,
}
use leadto_sales_re.Conversation.Coordinator.Turn.{IsTransfer}
use leadto_sales_re.Conversation.Coordinator.Failure.{handle_message_received_failure}
use leadto_sales_re.Conversation.Coordinator.Outcome.{
  bypass_refused, bypass_transfers, first_turn, later_turn,
}
use leadto_sales_re.Tests.{clock, chat, chat_db, patterns, asks_for_ana, respond, no_sidebar}

abbrev pub run_of : String → Database → Result (Unit {0}) × Database
run_of text db = handle_message_received patterns respond no_sidebar clock 7 1 text db

bypass_refused_example :
    run_of "quiero hablar con Ana" (chat_db dormant OwnerType.ai)
    ≡ (err (invalid_transition dormant assigned_human), chat_db dormant OwnerType.ai)
unfolding to_domain state_of_value channel_of_value owner_of_value check check_patterns allows
    allowed_transitions
bypass_refused_example =
    bypass_refused patterns respond no_sidebar clock 7 1 "quiero hablar con Ana"
      (chat_db dormant OwnerType.ai) (chat dormant OwnerType.ai) asks_for_ana refl refl refl

bypass_transfers_example :
    let db = chat_db qualification OwnerType.ai in
    let db' = (run_of "quiero hablar con Ana" db).1 in
    (c : Conversation) × (events : List DomainEvent) × (loaded 1 db' ≡ ok (some c))
    × (c.state ≡ assigned_human)
    × (c.ownership.owner_type ≡ OwnerType.human)
    × (c.last_contact_at ≡ 1000)
    × (db'.outbox_events ≡ db.outbox_events ++ map outbox_row events)
    × All IsTransfer events
    × (length db'.ownership_decisions ≡ length db.ownership_decisions + 1)
unfolding to_domain state_of_value channel_of_value owner_of_value check check_patterns allows
    allowed_transitions
bypass_transfers_example =
    bypass_transfers patterns respond no_sidebar clock 7 1 "quiero hablar con Ana"
      (chat_db qualification OwnerType.ai) (chat qualification OwnerType.ai) asks_for_ana refl refl
      refl

abbrev default_prompt : String
default_prompt = "Eres el asistente inmobiliario del equipo de asesores."

first_turn_example :
    let db = chat_db new OwnerType.unassigned in
    let db' = (run_of "hola" db).1 in
    (c : Conversation) × (events : List DomainEvent) × (sent : DomainEvent) × (loaded 1 db'
      ≡ ok (some c))
    × (c.state ≡ qualification)
    × (c.ownership.owner_type ≡ OwnerType.ai)
    × (db'.outbox_events ≡ db.outbox_events ++ map outbox_row (events ++ sent ∷ []))
    × All IsTransfer events
    × (sent.fields ≡ response_ready 1 "c-1" "Hola")
    × (length db'.ownership_decisions ≡ length db.ownership_decisions + 1)
unfolding to_domain state_of_value channel_of_value owner_of_value check check_patterns
    active_prompt
first_turn_example =
    first_turn patterns respond no_sidebar clock 7 1 "hola" (chat_db new OwnerType.unassigned)
      (chat new OwnerType.unassigned) default_prompt "Hola" refl refl refl (ground arith) refl refl

later_turn_example :
    let db = chat_db assigned_human OwnerType.human in
    let db' = (run_of "hola" db).1 in
    (c : Conversation) × (sent : DomainEvent) × (loaded 1 db' ≡ ok (some c))
    × (c.state ≡ assigned_human)
    × (c.ownership ≡ (chat assigned_human OwnerType.human).ownership)
    × (c.last_contact_at ≡ 1000)
    × (db'.outbox_events ≡ db.outbox_events ++ outbox_row sent ∷ [])
    × (sent.fields ≡ response_ready 1 "c-1" "Hola")
    × (db'.ownership_decisions ≡ db.ownership_decisions)
unfolding to_domain state_of_value channel_of_value owner_of_value check check_patterns
    active_prompt
later_turn_example =
    later_turn patterns respond no_sidebar clock 7 1 "hola" (chat_db assigned_human OwnerType.human)
      (chat assigned_human OwnerType.human) default_prompt "Hola" refl refl refl refl refl

reentry_gateway_example :
    let r =
      then {t = dormant} start
        (transition {s = dormant} {t = reactivated} (unfold allows in refl)) in
    (reactivated ≡ dormant) ⊎ ((reactivated ≡ reactivated) ⊎ Visits ownership_evaluation r)
reentry_gateway_example =
    reentry_gateway (
      then {t = dormant} start (transition {s = dormant} {t = reactivated} (unfold allows in refl)))

can_be_won_example : Run visit closed_won
can_be_won_example = can_be_won visit (ground arith)

-- A handover, a transition that is refused, and a decay.
abbrev calls : List Call
calls =
    transit (clock 0) assigned_human "x" none none
    ∷ transit (clock 1) new "y" none none
    ∷ fall_dormant (clock 2)
    ∷ []

after_calls-Run_example :
    let c = chat qualification OwnerType.ai in Run c.state (after_calls calls c).state
after_calls-Run_example = after_calls-Run calls (chat qualification OwnerType.ai)

abbrev pub question : OwnershipContext
question = record {
  conversation = chat assigned_human OwnerType.human;
  broker_requested = none;
  is_guardrail_bypass = false;
}

evaluate_outcome_example :
    ((d : OwnershipDecision) × (evaluate question ≡ ok d)
      × (d.owner_id ≡ none)
      × (d.inputs_snapshot ≡ inputs_snapshot question)
      × (((question.is_guardrail_bypass ≡ true) × (d.selected_owner ≡ OwnerType.human))
          ⊎ ((question.is_guardrail_bypass ≡ false)
              × (question.conversation.ownership.owner_type ≢ OwnerType.human)
              × (d.selected_owner ≡ OwnerType.ai))))
    ⊎ ((question.is_guardrail_bypass ≡ false)
        × (question.conversation.ownership.owner_type ≡ OwnerType.human)
        × ((e : String) × (evaluate question ≡ err (not_implemented_placeholder e))))
evaluate_outcome_example = evaluate_outcome question

check_names_no_stopword_example :
    IsNamed patterns patterns.named "quiero hablar con Ana" asks_for_ana "Ana"
unfolding check check_patterns
check_names_no_stopword_example =
    check_names_no_stopword patterns "quiero hablar con Ana" asks_for_ana "Ana" refl refl

load-save_example :
    let rows = (chat_db new OwnerType.ai).conversations in
    let c = chat dormant OwnerType.human in
    to_domain_option (get_row conversation_key c.id (save_rows c rows)) ≡ ok (some (stored c))
unfolding to_domain state_of_value channel_of_value owner_of_value
load-save_example =
    load-save (chat dormant OwnerType.human) (chat new OwnerType.ai)
      (chat_db new OwnerType.ai).conversations refl
      (record { id = refl; organization = refl; chatwoot = refl; channel = refl; created = refl })

handle_message_received_failure_example :
    (run_of "quiero hablar con Ana" (chat_db dormant OwnerType.ai)).1 ≡ chat_db dormant OwnerType.ai
unfolding handle_message_received handle_message handle_found get to_domain state_of_value
    channel_of_value owner_of_value touch check check_patterns transfer_to_human evaluate
    add_decision transition_to allows allowed_transitions
handle_message_received_failure_example =
    handle_message_received_failure patterns respond clock 7 "quiero hablar con Ana" 1
      (chat_db dormant OwnerType.ai) (invalid_transition dormant assigned_human) refl
