-- ===== src/Worker.antt =====
-- The consumers that app/main.py registers with the worker of the event bus: register_event_handlers
-- of the wiring.py of the conversation, lead and recommendation modules. Their clients and clocks are
-- parameters.
pub mod Consumers
pub mod Delivery
use leadto_sales_re.Base.{ℕ, String, Option, none, some, []}
use leadto_sales_re.Event.{Stamp, message_received, response_ready, profile_completed}
use leadto_sales_re.Result.{Result, Error, ok, err, external_error, key_error}
use leadto_sales_re.Database.{Database}
use leadto_sales_re.EventBus.{Handler, Registry, register}
use leadto_sales_re.Organization.{ChatwootConfig, CrmConfig}
use leadto_sales_re.Conversation.Guardrail.{Patterns}
use leadto_sales_re.Conversation.Coordinator.{Responder, SidebarPort, handle_message_received}
use leadto_sales_re.Conversation.ChatwootClient.{
  Attempt, Request, chatwoot_client_for, send_private_note, handle_response_ready,
}
use leadto_sales_re.Lead.WacrmClient.{Python, Http}
use leadto_sales_re.Lead.Sync.{CrmClient}
use leadto_sales_re.Lead.Guard.{check_before_decision}
use leadto_sales_re.Lead.Wiring as Lead
use leadto_sales_re.Recommendation.Service.{RecommendationService}
use leadto_sales_re.Recommendation.Wiring as Recommendation
use leadto_sales_re.Session.{in_session}

-- What the consumers are built with.
pub record Surroundings : Type 1 where
  pub clock : ℕ → Stamp
  pub patterns : Patterns
  pub respond : Responder
  pub rstrip : String → String
  pub answers : Request → ℕ → Attempt
  pub python : Python
  pub connect : Option CrmConfig → Http python
  pub client : CrmClient
  pub stale_after : ℕ
  pub parts : RecommendationService
  pub decimal : ℕ → String

-- `uuid.UUID(None)`, for an event without an organization.
abbrev pub no_organization : Error
no_organization = external_error "TypeError"

-- `payload["fields"][key]` of an event of another class.
abbrev pub missing : String → Error
missing key = key_error key

abbrev pub discard : {A : Type 0} → Result A → Result (Unit {0})
discard (ok a) = ok tt
discard (err e) = err e

module _ (w : Surroundings) where
  -- `SidebarPublisher(client) if client is not None else None`
  abbrev pub sidebar_of : Option ChatwootConfig → SidebarPort
  sidebar_of none = none
  sidebar_of (some config) = some (send_private_note w.rstrip w.answers config)

  abbrev pub with_client :
      ℕ → ℕ → String → Database → Result (Option ChatwootConfig) → Result (Unit {0}) × Database
  with_client organization conversation text db (err e) = (err e, db)
  with_client organization conversation text db (ok client) =
      handle_message_received w.patterns w.respond (sidebar_of client) w.clock organization
        conversation text db

  -- A consumer is registered for one type of event, so that it is called on events of that class.
  -- `handle_message_received`: the client is looked up first, in the same session.
  abbrev pub on_message_received : Handler
  on_message_received (some organization) (message_received conversation chat sender text at) db =
      with_client organization conversation text db
        (in_session (chatwoot_client_for w.rstrip w.answers organization) db).0
  on_message_received (some organization) _ db = (err (missing "conversation_id"), db)
  on_message_received none _ db = (err no_organization, db)

  abbrev pub on_response_ready : Handler
  on_response_ready (some organization) (response_ready conversation chat response) db =
      handle_response_ready w.rstrip w.answers organization chat response db
  on_response_ready (some organization) _ db = (err (missing "response"), db)
  on_response_ready none _ db = (err no_organization, db)

  abbrev pub push_to_crm : Handler
  push_to_crm organization (profile_completed lead crm_id completeness profile) db =
      Lead.handle_profile_completed w.python w.connect w.clock lead db
  push_to_crm organization _ db = (err (missing "lead_id"), db)

  -- The service of the handler, with a `StalenessGuard(session)`.
  abbrev pub service : RecommendationService
  service = record w.parts {
    staleness_guard = some (check_before_decision w.client w.clock w.stale_after);
  }

  abbrev pub on_profile_completed : Handler
  on_profile_completed (some organization) (profile_completed lead crm_id completeness profile) db =
      let (r, db') =
        Recommendation.handle_profile_completed w.decimal service w.clock organization lead db in
      (discard r, db')
  on_profile_completed (some organization) _ db = (err (missing "lead_id"), db)
  on_profile_completed none _ db = (err no_organization, db)

  -- The registry after the three calls of main.py.
  unfoldable pub registry : Registry
  unfolding register
  registry =
      register
        (record {
          event_type = "ProfileCompleted";
          consumer_name = "recommendation.on_profile_completed";
          handler = on_profile_completed;
        })
        (register
          (record {
            event_type = "ProfileCompleted";
            consumer_name = "lead_qualification.crm_push";
            handler = push_to_crm;
          })
          (register
            (record {
              event_type = "ResponseReady";
              consumer_name = "conversation_ownership.chatwoot_sender";
              handler = on_response_ready;
            })
            (register
              (record {
                event_type = "MessageReceived";
                consumer_name = "conversation_ownership.coordinator";
                handler = on_message_received;
              })
              [])))
