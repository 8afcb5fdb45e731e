-- ===== src/Conversation/Coordinator.antt =====
-- app/modules/conversation_ownership/application/coordinator.py, and `trace_decision` of
-- app/shared/infrastructure/observability.py. The responder and the sidebar's client are
-- parameters; `clock k` is what the k-th part of the turn reads of `new_id()` and `utcnow()`.
pub mod Turn
pub mod Outcome
pub mod Prompt
pub mod Failure
pub mod Inbox
use leadto_sales_re.Base.{
  ℕ, String, true, false, Option, none, some, List, [], ◌∷◌, ◌++◌, if◌then◌else◌, or_else,
  str_append,
}
use leadto_sales_re.Event.{Stamp, event_at, response_ready}
use leadto_sales_re.Result.{Result, ok, err}
use leadto_sales_re.Database.{Database, PromptTemplateRow, PromptVersionRow}
use leadto_sales_re.Session.{
  ◌>>◌, Action, pure, lift, ◌>>=◌, commit, scalar_one_or_none, in_session,
}
use leadto_sales_re.EventBus.{publish}
use leadto_sales_re.PromptRegistry.{templates_of, active_versions}
use leadto_sales_re.Conversation.State.{new, ai_owned, qualification, assigned_human, is_state}
use leadto_sales_re.Conversation.Model.{
  Conversation, OwnerType, touch, record_event, pull_domain_events, transition_to,
}
use leadto_sales_re.Conversation.Policy.{OwnershipDecision, evaluate}
use leadto_sales_re.Conversation.Guardrail.{Patterns, BypassDecision, check}
use leadto_sales_re.Conversation.Repository
use leadto_sales_re.Conversation.Repository.{add_decision}
use leadto_sales_re.Conversation.Sidebar

abbrev pub agent_name : String
agent_name = "coordinator"

-- `DecisionTraceRecorder`: the tool calls and the output.
pub record Recorder : Type 0 where
  pub tool_calls : List (String × String × String)
  pub output : List (String × String)

abbrev pub empty_recorder : Recorder
empty_recorder = record { tool_calls = []; output = [] }

abbrev add_trace : Stamp → ℕ → ℕ → Recorder → Database → Database
add_trace t organization conversation r db = record db {
  decision_traces =
      db.decision_traces
      ++ record {
        id = t.new_id;
        organization_id = organization;
        agent_name = agent_name;
        conversation_id = some conversation;
        tool_calls = r.tool_calls;
        output = r.output;
        created_at = t.now;
      }
        ∷ [];
}

abbrev pub finish_trace :
    {A : Type 0} → (Recorder → Database → Database) → Recorder → Result (Recorder × A) → Action A
finish_trace write partial (ok (r, a)) s = (ok a, record s { working = write r s.working })
finish_trace write partial (err e) s = (err e, record s { working = write partial s.working })

-- `async with trace_decision(…) as recorder`: the row is added on every way out of the block.
-- `partial` is what the block has recorded if it raises.
abbrev pub trace_decision :
    {A : Type 0} → Stamp → ℕ → ℕ → Recorder → Action (Recorder × A) → Action A
trace_decision t organization conversation partial block s =
    let (r, s') = block s in finish_trace (add_trace t organization conversation) partial r s'

abbrev content_or : String → Option PromptVersionRow → String
content_or fallback none = fallback
content_or fallback (some v) = v.content

abbrev content_of : String → Result (Option PromptVersionRow) → Result String
content_of fallback (ok v) = ok (content_or fallback v)
content_of fallback (err e) = err e

abbrev active_content : String → Database → Result (Option PromptTemplateRow) → Result String
active_content fallback db (ok none) = ok fallback
active_content fallback db (ok (some t)) =
    content_of fallback (scalar_one_or_none (active_versions t.id db))
active_content fallback db (err e) = err e

-- `_load_system_prompt`, as a query of the database.
unfoldable pub active_prompt : ℕ → Database → Result String
active_prompt organization db =
    active_content "Eres el asistente inmobiliario del equipo de asesores." db
      (scalar_one_or_none (templates_of organization agent_name db))

unfoldable pub load_system_prompt : ℕ → Action String
load_system_prompt organization s = (active_prompt organization s.working, s)

-- A method of the aggregate inside an action: what it raises ends the action.
abbrev pub on_object : {A C : Type 0} → Result A × C → Action (A × C)
on_object (ok a, c) s = (ok (a, c), s)
on_object (err e, c) s = (err e, s)

-- `ResponderPort.respond`, which may raise.
abbrev pub Responder : Type 0
Responder = String → ℕ → String → Result String

-- `_transfer_to_human`
unfoldable pub transfer_to_human :
    (ℕ → Stamp) → Conversation → Option String → Action (OwnershipDecision × Conversation)
transfer_to_human clock c broker = do
  decision ← lift (
      evaluate (record { conversation = c; broker_requested = broker; is_guardrail_bypass = true }))
  recorded ← add_decision (clock 1) c decision
  moved ← on_object (
      transition_to (clock 2) assigned_human decision.explanation (some OwnerType.human)
        decision.owner_id c)
  pure (decision, moved.1)

-- The first turn: the policy gives the conversation to the AI, which starts the qualification.
unfoldable pub take_ownership : (ℕ → Stamp) → Conversation → Action Conversation
take_ownership clock c = do
  decision ←
      lift (
        evaluate
          (record { conversation = c; broker_requested = none; is_guardrail_bypass = false }))
  recorded ← add_decision (clock 1) c decision
  owned ←
      on_object (transition_to (clock 2) ai_owned decision.explanation (some OwnerType.ai) none c)
  moved ← on_object (
      transition_to (clock 3) qualification
        "Ownership assigned to AI; beginning conversational qualification" none none owned.1)
  pure moved.1

abbrev pub if_new : (ℕ → Stamp) → Conversation → Action Conversation
if_new clock c = if is_state c.state new then take_ownership clock c else pure c

-- The part of `_conversational_turn` from the prompt on.
unfoldable pub reply :
    Responder → (ℕ → Stamp) → String → Conversation → Action (String × Conversation)
reply respond clock text c = do
  system_prompt ← load_system_prompt c.organization_id
  response ← lift (respond system_prompt c.id text)
  pure (
    response,
    record_event
        (event_at (clock 4) c.organization_id
          (response_ready c.id c.chatwoot_conversation_id response))
        c,
  )

-- `_conversational_turn`
unfoldable pub conversational_turn :
    Responder → (ℕ → Stamp) → Conversation → String → Action (String × Conversation)
conversational_turn respond clock c text = if_new clock c >>= reply respond clock text

abbrev pub check_call : String → BypassDecision → Recorder
check_call text bypass = record {
  tool_calls =
      ("guardrail.check", text, str_append "bypass:" (or_else bypass.broker_requested "None")) ∷ [];
  output = [];
}

abbrev pub bypass_record : String → BypassDecision → OwnershipDecision → Recorder
bypass_record text bypass d = record (check_call text bypass) {
  output = ("action", "guardrail_bypass") ∷ ("explanation", d.explanation) ∷ [];
}

abbrev pub reply_record : String → Recorder
reply_record response = record {
  tool_calls = [];
  output = ("action", "reply") ∷ ("response", response) ∷ [];
}

-- The body of the traced block: the guardrail runs first, and a bypass gets no reply.
abbrev pub turn :
    Responder
    → (ℕ → Stamp)
    → Conversation
    → String
    → Option BypassDecision
    → Action (Recorder × Conversation)
turn respond clock c text (some bypass) = do
  done ← transfer_to_human clock c bypass.broker_requested
  pure (bypass_record text bypass done.0, done.1)
turn respond clock c text none = do
  done ← conversational_turn respond clock c text
  pure (reply_record done.0, done.1)

abbrev pub partial_record : String → Option BypassDecision → Recorder
partial_record text none = empty_recorder
partial_record text (some bypass) = check_call text bypass

-- What follows the traced block.
unfoldable pub close_turn : Conversation → Action Conversation
close_turn c = do
  Repository.save c
  let pulled = pull_domain_events c
  publish pulled.0
  commit
  pure pulled.1

-- What the turn does to a conversation that was found, up to the commit.
unfoldable pub handle_found :
    Patterns → Responder → (ℕ → Stamp) → ℕ → String → Conversation → Action Conversation
handle_found patterns respond clock organization text found =
    let c = touch none (clock 0).now found in
    let bypass = check patterns text in
    trace_decision (clock 5) organization c.id (partial_record text bypass)
      (turn respond clock c text bypass)
    >>= close_turn

-- `SidebarPublisher`, where there is one, over the client's `send_private_note`.
abbrev pub SidebarPort : Type 0
SidebarPort = Option (String → String → Result (Unit {0}))

abbrev pub show : SidebarPort → Conversation → Action (Unit {0})
show none c = pure tt
show (some send) c = lift (Sidebar.publish send c none)

-- `CoordinatorAgent.handle_message`: an unknown conversation is logged and dropped.
abbrev pub handle_option :
    Patterns
    → Responder
    → SidebarPort
    → (ℕ → Stamp)
    → ℕ
    → String
    → Option Conversation
    → Action (Unit {0})
handle_option patterns respond sidebar clock organization text none = pure tt
handle_option patterns respond sidebar clock organization text (some found) = do
  c ← handle_found patterns respond clock organization text found
  show sidebar c

unfoldable pub handle_message :
    Patterns → Responder → SidebarPort → (ℕ → Stamp) → ℕ → ℕ → String → Action (Unit {0})
handle_message patterns respond sidebar clock organization conversation text = do
  found ← Repository.get conversation
  handle_option patterns respond sidebar clock organization text found

-- The coordinator's part of `handle_message_received` of wiring.py: a session of its own.
unfoldable pub handle_message_received :
    Patterns
    → Responder
    → SidebarPort
    → (ℕ → Stamp)
    → ℕ
    → ℕ
    → String
    → Database
    → Result (Unit {0}) × Database
handle_message_received patterns respond sidebar clock organization conversation text =
    in_session (handle_message patterns respond sidebar clock organization conversation text)
