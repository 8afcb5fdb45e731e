-- ===== src/Worker/Consumers.antt =====
-- No consumer of the application writes to the inbox of the worker, so that a pass of the worker over
-- its own registry keeps the inbox without duplicates.
use leadto_sales_re.Base.{ℕ, String, ◌≡◌, refl, ◌∙◌, Option, none, some, All}
use leadto_sales_re.Event.{EventFields, message_received, response_ready, profile_completed}
use leadto_sales_re.Result.{Result, Error, ok, err}
use leadto_sales_re.Database.{Database}
use leadto_sales_re.EventBus.{register, drain_batch}
use leadto_sales_re.EventBus.Inbox.{KeepsInbox, IsUnique, drain_batch-IsUnique}
use leadto_sales_re.Session.{lift, in_session, ◌>>=◌}
use leadto_sales_re.Session.Untouched.{
  Untouched, bind-Untouched, lift-Untouched, commit-Untouched, in_session-Untouched,
}
use leadto_sales_re.Organization.{ChatwootConfig}
use leadto_sales_re.Organization.Repository.{get_config}
use leadto_sales_re.Conversation.Coordinator.Inbox.{handle_message_received_keeps}
use leadto_sales_re.Conversation.ChatwootClient.{
  chatwoot_client_for, handle_response_ready, send_after,
}
use leadto_sales_re.Lead.Mirror.{Lead}
use leadto_sales_re.Lead.Stage.{qualified}
use leadto_sales_re.Lead.Repository.{get}
use leadto_sales_re.Lead.Sync.{push_profile_update}
use leadto_sales_re.Lead.Sync.Untouched.{inbox, push_profile_update-Untouched}
use leadto_sales_re.Lead.Wiring as Lead
use leadto_sales_re.Lead.Wiring.{
  build_wacrm_client, push_found, or_dropped, client_of, crm_of_config, event_actor,
}
use leadto_sales_re.Worker.Delivery.{on_profile_completed_keeps}
use leadto_sales_re.Worker.{
  Surroundings, on_message_received, on_response_ready, push_to_crm, registry, sidebar_of,
  with_client,
}

module _ (w : Surroundings) where
  looked_up-Untouched :
      (organization : ℕ) → Untouched inbox (chatwoot_client_for w.rstrip w.answers organization)
  unfolding chatwoot_client_for get_config
  looked_up-Untouched organization x s p =
      bind-Untouched inbox (get_config organization) _ (λ x s p. p) (λ c x s p. p) x s p

  with_client_keeps :
      (organization conversation : ℕ) (text : String) (db : Database)
      (r : Result (Option ChatwootConfig))
      → (with_client w organization conversation text db r).1.inbox_records ≡ db.inbox_records
  with_client_keeps organization conversation text db (err e) = refl
  with_client_keeps organization conversation text db (ok client) =
      handle_message_received_keeps w.patterns w.respond (sidebar_of w client) w.clock organization
        text conversation db

  on_message_received_keeps :
      (o : Option ℕ) (f : EventFields) (db : Database)
      → (on_message_received w o f db).1.inbox_records ≡ db.inbox_records
  on_message_received_keeps none f db = refl
  on_message_received_keeps (some organization) (message_received c chat sender text at) db =
      with_client_keeps organization c text db
        (in_session (chatwoot_client_for w.rstrip w.answers organization) db).0
  on_message_received_keeps (some organization) _ db = refl

  sent_keeps :
      (chat response : String) (r : Result (Option ChatwootConfig)) (db : Database)
      → (send_after w.rstrip w.answers chat response (r, db)).1.inbox_records ≡ db.inbox_records
  sent_keeps chat response (ok client) db = refl
  sent_keeps chat response (err e) db = refl

  on_response_ready_keeps :
      (o : Option ℕ) (f : EventFields) (db : Database)
      → (on_response_ready w o f db).1.inbox_records ≡ db.inbox_records
  unfolding handle_response_ready
  on_response_ready_keeps none f db = refl
  on_response_ready_keeps (some organization) (response_ready c chat response) db =
      let looked_up = in_session (chatwoot_client_for w.rstrip w.answers organization) db in
      sent_keeps chat response looked_up.0 looked_up.1
      ∙ in_session-Untouched inbox (chatwoot_client_for w.rstrip w.answers organization) db
          (looked_up-Untouched organization)
  on_response_ready_keeps (some organization) _ db = refl

  built-Untouched :
      (organization : ℕ) → Untouched inbox (build_wacrm_client w.python w.connect organization)
  unfolding build_wacrm_client get_config
  built-Untouched organization =
      bind-Untouched inbox (get_config organization)
        (λ config. lift (client_of w.python w.connect organization (crm_of_config config)))
        (λ x s p. p)
        (λ config.
          lift-Untouched inbox (client_of w.python w.connect organization (crm_of_config config)))

  pushed-Untouched :
      (lead : ℕ) (found : Option Lead)
      → Untouched inbox (push_found w.python w.connect w.clock lead found)
  pushed-Untouched lead none = λ x s p. p
  pushed-Untouched lead (some l) =
      bind-Untouched inbox (build_wacrm_client w.python w.connect l.organization_id) _
        (built-Untouched l.organization_id)
        (λ client.
          bind-Untouched inbox (push_profile_update client w.clock lead event_actor qualified) _
            (push_profile_update-Untouched client w.clock lead event_actor qualified)
            (λ pushed. commit-Untouched inbox))

  push_to_crm_keeps :
      (o : Option ℕ) (f : EventFields) (db : Database)
      → (push_to_crm w o f db).1.inbox_records ≡ db.inbox_records
  unfolding Lead.handle_profile_completed get
  push_to_crm_keeps o (profile_completed lead crm_id completeness profile) db =
      in_session-Untouched inbox
        (get lead >>= λ found. or_dropped (push_found w.python w.connect w.clock lead found)) db
        (bind-Untouched inbox (get lead)
          (λ found. or_dropped (push_found w.python w.connect w.clock lead found)) (λ x s p. p)
          (λ found x s p. pushed-Untouched lead found x s p))
  push_to_crm_keeps o _ db = refl

  registry-KeepsInbox : All KeepsInbox (registry w)
  unfolding registry register
  registry-KeepsInbox = (
    on_message_received_keeps,
    (on_response_ready_keeps, (push_to_crm_keeps, (on_profile_completed_keeps w, tt))),
  )

  -- A pass of the worker over the application's own registry, whatever rows the pass reads and
  -- whichever consumers raise, records no consumer's success for an event a second time, where the
  -- inbox has no duplicates before it.
  pub application_inbox-IsUnique :
      (message : String → Error → String) (now batch_size : ℕ) (db : Database)
      → IsUnique db.inbox_records
      → IsUnique (drain_batch message now (registry w) batch_size db).1.inbox_records
  application_inbox-IsUnique message now batch_size db =
      drain_batch-IsUnique message now (registry w) batch_size db registry-KeepsInbox
